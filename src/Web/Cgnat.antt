-- ===== src/Web/Cgnat.antt =====
-- The addresses of the tailnet (internal/web/identity.go, isTailscaleCGNAT).
use cnpg_portal.Prelude.{ℕ, [], ◌∷◌, Bool, ◌≡◌, arith, ◌+◌, ◌*◌, ◌/◌, ◌<◌, ◌==◌, some}
use cnpg_portal.Web.Identity.{is_tailscale_cgnat, in_cgnat}

-- the 32 bits of an address
abbrev pub bits : ℕ → ℕ → ℕ → ℕ → ℕ
bits a b c d = ((a * 256 + b) * 256 + c) * 256 + d

-- the prefix of ten bits is the one of 100.64.0.0
abbrev pub in_prefix : ℕ → ℕ → ℕ → ℕ → Bool
in_prefix a b c d = bits a b c d / 4194304 == bits 100 64 0 0 / 4194304

module _ (a b c d : ℕ) (a_byte : a < 256) (b_byte : b < 256) (c_byte : c < 256)
    (d_byte : d < 256) where
  in_cgnat-eq : in_cgnat (a ∷ b ∷ c ∷ d ∷ []) ≡ in_prefix a b c d
  unfolding in_cgnat
  in_cgnat-eq = ground arith

  -- The test of the bytes is the test of the prefix 100.64.0.0/10, for an IPv4 address and for one
  -- that is written in the sixteen bytes of ::ffff:0:0/96.
  pub is_tailscale_cgnat-eq :
      (is_tailscale_cgnat (some (a ∷ b ∷ c ∷ d ∷ [])) ≡ in_prefix a b c d)
      × (is_tailscale_cgnat
            (some (0 ∷ 0 ∷ 0 ∷ 0 ∷ 0 ∷ 0 ∷ 0 ∷ 0 ∷ 0 ∷ 0 ∷ 255 ∷ 255 ∷ a ∷ b ∷ c ∷ d ∷ []))
          ≡ in_prefix a b c d)
  unfolding is_tailscale_cgnat
  is_tailscale_cgnat-eq = (in_cgnat-eq, in_cgnat-eq)
