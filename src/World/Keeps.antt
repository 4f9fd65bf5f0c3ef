-- ===== src/World/Keeps.antt =====
-- What a chain of calls keeps true of the history: one rule for each way to build a chain. A
-- chain is shown once to make only calls that `Allowed` permits, and from that every property of
-- histories follows that such calls keep.
use cnpg_portal.Prelude.{Option, none, some, Text, ◌≡◌, refl, Bool, true, false, ◌∷◌, if◌then◌else◌}
use cnpg_portal.Result.{Error, Result, ok, err}
use cnpg_portal.World.{
  Exec, History, Call, World, ask_text, ask_done, ask_secret, ask_backups, ask_backup, ask_cluster,
  ask_pods, ask_number,
}
use cnpg_portal.World.Chain.{pure, raise, lift, require, ◌>>=◌, annotate, outcome, continue}

pub record Keeps {ℓ} {A : Type ℓ} (P : History → Type 0) (m : Exec A) : Type ℓ where
  pub at : (h : History) → P h → P (m h).1

-- A call that is allowed keeps `P`.
abbrev pub Grows : (History → Type 0) → (Call → Type 0) → Type 0
Grows P Allowed = (c : Call) → Allowed c → (h : History) → P h → P (c ∷ h)

module _ {ℓ} {A : Type ℓ} {P : History → Type 0} where
  pub Keeps-pure : (a : A) → Keeps P (pure a)
  unfolding pure
  Keeps-pure a = record { at = λ h p. p }

  pub Keeps-raise : (e : Error) → Keeps P (raise {A = A} e)
  unfolding raise
  Keeps-raise e = record { at = λ h p. p }

  pub Keeps-lift : (r : Result A) → Keeps P (lift r)
  unfolding lift
  Keeps-lift r = record { at = λ h p. p }

  pub Keeps-annotate : (f : Error → Error) (m : Exec A) → Keeps P m → Keeps P (annotate f m)
  unfolding annotate
  Keeps-annotate f m k = record { at = k.at }

  pub Keeps-outcome : (m : Exec A) → Keeps P m → Keeps P (outcome m)
  unfolding outcome
  Keeps-outcome m k = record { at = k.at }

  pub Keeps-if : (b : Bool) (m n : Exec A) → Keeps P m → Keeps P n → Keeps P (if b then m else n)
  Keeps-if true m n k l = k
  Keeps-if false m n k l = l

  -- either branch may use which one it is
  pub Keeps-if_cases :
      (b : Bool) (m n : Exec A)
      → (b ≡ true → Keeps P m)
      → (b ≡ false → Keeps P n)
      → Keeps P (if b then m else n)
  Keeps-if_cases true m n k l = k refl
  Keeps-if_cases false m n k l = l refl

-- the two cases of an option, and those of a result
module _ {ℓ κ} {A : Type ℓ} {B : Type κ} {P : History → Type 0} where
  pub Keeps-option :
      (o : Option A) (m : Exec B) (f : A → Exec B)
      → Keeps P m
      → ((a : A) → Keeps P (f a))
      → Keeps P (elim o [ none ↦ m | some a ↦ f a ])
  Keeps-option none m f k l = k
  Keeps-option (some a) m f k l = l a

  pub Keeps-result :
      (r : Result A) (f : Error → Exec B) (g : A → Exec B)
      → ((e : Error) → Keeps P (f e))
      → ((a : A) → Keeps P (g a))
      → Keeps P (elim r [ err e ↦ f e | ok a ↦ g a ])
  Keeps-result (err e) f g k l = k e
  Keeps-result (ok a) f g k l = l a

module _ {P : History → Type 0} where
  pub Keeps-require : (b : Bool) (e : Error) → Keeps P (require b e)
  unfolding require
  Keeps-require true e = record { at = λ h p. p }
  Keeps-require false e = record { at = λ h p. p }

module _ {ℓ κ} {A : Type ℓ} {B : Type κ} {P : History → Type 0} where
  -- the rest of the chain may use that the value did not fail
  pub Keeps-bind_lift :
      (r : Result A) (f : A → Exec B)
      → ((a : A) → r ≡ ok a → Keeps P (f a))
      → Keeps P (lift r >>= f)
  unfolding ◌>>=◌
  Keeps-bind_lift (ok a) f k = record { at = (k a refl).at }
  Keeps-bind_lift (err e) f k = record { at = λ h p. p }

  pub Keeps-bind_ok : (a : A) (f : A → Exec B) → Keeps P (f a) → Keeps P (lift (ok a) >>= f)
  unfolding ◌>>=◌
  Keeps-bind_ok a f k = record { at = k.at }

  Keeps-continue :
      (r : Result A) (f : A → Exec B)
      → ((a : A) → Keeps P (f a))
      → (h : History) → P h
      → P (continue r f h).1
  Keeps-continue (ok a) f k h p = (k a).at h p
  Keeps-continue (err e) f k h p = p

  pub Keeps-bind :
      (m : Exec A) (f : A → Exec B) → Keeps P m → ((a : A) → Keeps P (f a)) → Keeps P (m >>= f)
  unfolding ◌>>=◌
  Keeps-bind m f k l = record {
    at = λ h p. let (r, h') = m h in Keeps-continue r f l h' (k.at h p);
  }

module _ {P : History → Type 0} {Allowed : Call → Type 0} (w : World) (grows : Grows P Allowed)
    (c : Call) (a : Allowed c) where
  pub Keeps-ask_text : Keeps P (ask_text w c)
  unfolding ask_text
  Keeps-ask_text = record { at = grows c a }

  pub Keeps-ask_done : Keeps P (ask_done w c)
  unfolding ask_done
  Keeps-ask_done = record { at = grows c a }

  pub Keeps-ask_secret : Keeps P (ask_secret w c)
  unfolding ask_secret
  Keeps-ask_secret = record { at = grows c a }

  pub Keeps-ask_backups : Keeps P (ask_backups w c)
  unfolding ask_backups
  Keeps-ask_backups = record { at = grows c a }

  pub Keeps-ask_backup : Keeps P (ask_backup w c)
  unfolding ask_backup
  Keeps-ask_backup = record { at = grows c a }

  pub Keeps-ask_cluster : Keeps P (ask_cluster w c)
  unfolding ask_cluster
  Keeps-ask_cluster = record { at = grows c a }

  pub Keeps-ask_pods : Keeps P (ask_pods w c)
  unfolding ask_pods
  Keeps-ask_pods = record { at = grows c a }

  pub Keeps-ask_number : Keeps P (ask_number w c)
  unfolding ask_number
  Keeps-ask_number = record { at = grows c a }

module _ {ℓ} {B : Type ℓ} {P : History → Type 0} {Allowed : Call → Type 0} (w : World)
    (grows : Grows P Allowed) (c : Call) (a : Allowed c) where
  -- the rest of the chain may use that the outside has answered so
  pub Keeps-bind_text :
      (f : Text → Exec B)
      → ((t : Text) (h : History) → w.text h c ≡ ok t → Keeps P (f t))
      → Keeps P (ask_text w c >>= f)
  unfolding ◌>>=◌
  Keeps-bind_text f k = record { at = λ h p. go h p (w.text h c) refl }
    where
      go : (h : History) → P h → (r : Result Text) → w.text h c ≡ r → P (continue r f (c ∷ h)).1
      go h p (ok t) e = (k t h e).at (c ∷ h) (grows c a h p)
      go h p (err x) e = grows c a h p

pub ruleset keeps_rules = (
  Keeps-pure, Keeps-raise, Keeps-lift, Keeps-annotate, Keeps-outcome, Keeps-if, Keeps-require,
  Keeps-bind,
)
