-- ===== src/Paths/Inside.antt =====
-- A relative path whose cleaned form does not begin with `..` stays below the folder that it is
-- joined to.
use cnpg_portal.Prelude.{
  ◌||◌, Text, eq_text, eq_text_iff, List, [], ◌∷◌, ◌++◌, reverse, true, false, ◌≡◌, ◌≢◌, refl, ap,
  ◌∙◌, arith, All, Bool-cases, inl, inr, ◌⊎◌,
}
use mathlib.Core.List.{reverse-cons}
use cnpg_portal.Paths.{dot, dotdot, go_up, clean_step, clean_parts}

-- A name that a folder can hold: not empty, not "." and not "..".
pub record IsProper (part : Text) : Type 0 where
  pub not_empty : part ≢ []
  pub not_dot : part ≢ dot
  pub not_dotdot : part ≢ dotdot

-- The last item of the stack, which is the first name of the path, is "..".
abbrev pub Climbs : List Text → Type 0
Climbs [] = ⊥
Climbs (part ∷ []) = part ≡ dotdot
Climbs (part ∷ next ∷ stack) = Climbs (next ∷ stack)

Climbs-cons : (part : Text) (stack : List Text) → Climbs stack → Climbs (part ∷ stack)
Climbs-cons part [] h = absurd h
Climbs-cons part (next ∷ stack) h = h

go_up-Climbs : (stack : List Text) → Climbs stack → Climbs (go_up false stack)
unfolding go_up
go_up-Climbs [] h = absurd h
go_up-Climbs (top ∷ stack) h = elim (Bool-cases (eq_text top dotdot)) [
  | inl e ↦ rw e (Climbs-cons dotdot (top ∷ stack) h)
  | inr e ↦ rw e (below stack h e)
]
  where
    below : (rest : List Text) → Climbs (top ∷ rest) → eq_text top dotdot ≡ false → Climbs rest
    below [] k f = cc (f, (eq_text_iff top dotdot).1 k)
    below (next ∷ rest) k f = k

clean_step-Climbs :
    (stack : List Text) (part : Text) → Climbs stack → Climbs (clean_step false stack part)
unfolding clean_step
clean_step-Climbs stack part h = elim (Bool-cases (eq_text part [] || eq_text part dot)) [
  | inl e ↦ rw e h
  | inr e ↦ rw e (elim (Bool-cases (eq_text part dotdot)) [
    | inl f ↦ rw f (go_up-Climbs stack h)
    | inr f ↦ rw f (Climbs-cons part stack h)
  ])
]

-- Once the path has climbed out, it stays out.
clean_parts-Climbs :
    (stack parts : List Text) → Climbs stack → Climbs (clean_parts false stack parts)
unfolding clean_parts
clean_parts-Climbs stack [] h = h
clean_parts-Climbs stack (part ∷ parts) h =
    clean_parts-Climbs (clean_step false stack part) parts (clean_step-Climbs stack part h)

pub Climbs-reverse :
    (stack : List Text) → Climbs stack → (rest : List Text) × (reverse stack ≡ dotdot ∷ rest)
Climbs-reverse [] h = absurd h
Climbs-reverse (part ∷ []) h = ([], ap (λ (p : Text). p ∷ []) h)
Climbs-reverse (part ∷ next ∷ stack) h =
    let (rest, e) = Climbs-reverse (next ∷ stack) h in
    (rest ++ part ∷ [], reverse-cons part (next ∷ stack) ∙ rw e)

pub IsProper-of_tests :
    (part : Text)
    → eq_text part [] || eq_text part dot ≡ false
    → eq_text part dotdot ≡ false
    → IsProper part
IsProper-of_tests part h k = record {
  not_empty = λ e. ground (arith, (eq_text_iff part []).1 e);
  not_dot = λ e. ground (arith, (eq_text_iff part dot).1 e);
  not_dotdot = λ e. ground (arith, (eq_text_iff part dotdot).1 e);
}

pub dotdot-miss : (part : Text) → IsProper part → eq_text part dotdot ≡ false
dotdot-miss part p = elim (Bool-cases (eq_text part dotdot)) [
  | inl e ↦ absurd (p.not_dotdot ((eq_text_iff part dotdot).0 e))
  | inr e ↦ e
]

-- A name added to a path that has not climbed out: it climbs out now, or it does below any folder
-- what it does on its own.
abbrev Follows : List Text → List Text → List Text → List Text → Type 0
Follows next base alone joined = Climbs alone ⊎ ((joined ≡ alone ++ base) × All IsProper alone)

go_up-Follows :
    (stack base : List Text)
    → All IsProper stack
    → Follows stack base (go_up false stack) (go_up true (stack ++ base))
unfolding go_up
go_up-Follows [] base h = inl refl
go_up-Follows (top ∷ stack) base (p, h) = rw (dotdot-miss top p) (inr (refl, h))

clean_step-Follows :
    (stack base : List Text) (part : Text)
    → All IsProper stack
    → Follows stack base (clean_step false stack part) (clean_step true (stack ++ base) part)
unfolding clean_step
clean_step-Follows stack base part h = elim (Bool-cases (eq_text part [] || eq_text part dot)) [
  | inl e ↦ rw e (inr (refl, h))
  | inr e ↦ elim (Bool-cases (eq_text part dotdot)) [
    | inl f ↦ rw (e, f) (go_up-Follows stack base h)
    | inr f ↦ rw (e, f) (inr (refl, (IsProper-of_tests part e f, h)))
  ]
]

pub clean_parts-Follows :
    (stack base parts : List Text)
    → All IsProper stack
    → Follows stack base (clean_parts false stack parts) (clean_parts true (stack ++ base) parts)
unfolding clean_parts
clean_parts-Follows stack base [] h = inr (refl, h)
clean_parts-Follows stack base (part ∷ parts) h = elim (clean_step-Follows stack base part h) [
  | inl out ↦ inl (clean_parts-Climbs (clean_step false stack part) parts out)
  | inr (e, k) ↦ rw e (clean_parts-Follows (clean_step false stack part) base parts k)
]
