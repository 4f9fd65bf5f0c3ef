-- ===== src/Cnpg/Sorted.antt =====
-- The list of backups: its order, and the backup that the portal shows and restores.
use cnpg_portal.Prelude.{
  subst, inr, All, inl, List, [], ◌∷◌, ◌≡◌, true, Bool-cases, leb, arith, eq_text,
}
use cnpg_portal.World.{Backup}
use cnpg_portal.Cnpg.{
  keep, phase_completed, some, Bool, insert, sort_backups, latest_completed, newer,
}

-- `b` is at least as new as every backup of the list
abbrev pub IsNewest : Backup → List Backup → Type 0
IsNewest b cs = All (λ c. leb c.started_at b.started_at ≡ true) cs

abbrev pub IsSorted : List Backup → Type 0
IsSorted [] = Unit
IsSorted (b ∷ bs) = IsNewest b bs × IsSorted bs

IsNewest-insert :
    (a b : Backup) (cs : List Backup)
    → leb b.started_at a.started_at ≡ true
    → IsNewest a cs
    → IsNewest a (insert b cs)
unfolding insert
IsNewest-insert a b [] l n = (l, tt)
IsNewest-insert a b (c ∷ cs) l (m, n) = elim (Bool-cases (newer c b)) [
  | inl t ↦ rw t (m, IsNewest-insert a b cs l n)
  | inr f ↦ rw f (l, (m, n))
]

IsNewest-trans :
    (a b : Backup) (cs : List Backup)
    → leb b.started_at a.started_at ≡ true
    → IsNewest b cs
    → IsNewest a cs
IsNewest-trans a b [] l n = tt
IsNewest-trans a b (c ∷ cs) l (m, n) = (ground arith, IsNewest-trans a b cs l n)

insert-IsSorted : (b : Backup) (cs : List Backup) → IsSorted cs → IsSorted (insert b cs)
unfolding insert
insert-IsSorted b [] s = (tt, tt)
insert-IsSorted b (c ∷ cs) (n, s) = elim (Bool-cases (newer c b)) [
  | inl t ↦ rw t (IsNewest-insert c b cs (ground arith) n, insert-IsSorted b cs s)
  | inr f ↦ rw f ((ground arith, IsNewest-trans b c cs (ground arith) n), (n, s))
]

-- The backups are listed newest first.
pub sort_backups-IsSorted : (bs : List Backup) → IsSorted (sort_backups bs)
unfolding sort_backups
sort_backups-IsSorted [] = tt
sort_backups-IsSorted (b ∷ bs) = insert-IsSorted b _ (sort_backups-IsSorted bs)

abbrev pub is_completed : Backup → Bool
is_completed b = eq_text b.phase phase_completed

IsNewest-keep :
    (p : Backup → Bool) (b : Backup) (cs : List Backup) → IsNewest b cs → IsNewest b (keep p cs)
IsNewest-keep p b [] n = tt
IsNewest-keep p b (c ∷ cs) (m, n) = elim (Bool-cases (p c)) [
  | inl t ↦ rw t (m, IsNewest-keep p b cs n)
  | inr f ↦ rw f (IsNewest-keep p b cs n)
]

-- Of a list that is sorted newest first, `LatestCompleted` gives a completed backup that is at
-- least as new as every completed backup of the list.
pub latest_completed-IsNewest :
    (bs : List Backup) (b : Backup)
    → IsSorted bs
    → latest_completed bs ≡ some b
    → (is_completed b ≡ true) × IsNewest b (keep is_completed bs)
unfolding latest_completed
latest_completed-IsNewest [] b s e = absurd (cc e)
latest_completed-IsNewest (c ∷ bs) b (n, s) e = elim (Bool-cases (is_completed c)) [
  | inl t ↦
      let same : c ≡ b = ground arith in
      subst (λ x. (is_completed x ≡ true) × IsNewest x (keep is_completed (c ∷ bs))) same
        (t, rw t (ground arith, IsNewest-keep is_completed c bs n))
  | inr f ↦ rw f (latest_completed-IsNewest bs b s (ground arith))
]
