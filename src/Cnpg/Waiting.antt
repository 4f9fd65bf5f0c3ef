-- ===== src/Cnpg/Waiting.antt =====
-- The polls of a backup and of a recovery cluster's pod.
use cnpg_portal.Prelude.{
  refl, subst, inr, ◌⊎◌, inl, Text, ℕ, zero, suc, ◌≡◌, true, arith, Bool-cases,
}
use cnpg_portal.Result.{ok, err, err_backup_failed}
use cnpg_portal.World.{World, Backup, History}
use cnpg_portal.World.Chain.{rename_error, continue, ◌>>=◌, annotate}
use cnpg_portal.Cnpg.{
  codes, wrapped, pure, get_backup, err_context, false, eq_text, Result, Exec, wait_backup,
  after_poll, phase_completed, phase_failed,
}

-- what a poll of a backup returns together with its backup, and why
abbrev pub IsVerdict : Backup × Result (Unit {0}) → Type 0
IsVerdict (b, ok u) = eq_text b.phase phase_completed ≡ true
IsVerdict (b, err e) =
    (eq_text b.phase phase_completed ≡ false)
    × ((e ≡ err_backup_failed) × (eq_text b.phase phase_failed ≡ true)
        ⊎ (e ≡ err_context) × (eq_text b.phase phase_failed ≡ false))

after_poll-IsVerdict :
    (b : Backup) (next : Exec (Backup × Result (Unit {0}))) (h : History)
    {r : Backup × Result (Unit {0})}
    → (eq_text b.phase phase_completed ≡ false
        → eq_text b.phase phase_failed ≡ false
        → (next h).0 ≡ ok r
        → IsVerdict r)
    → (after_poll b next h).0 ≡ ok r
    → IsVerdict r
unfolding after_poll ◌>>=◌
after_poll-IsVerdict b next h {r} k e = elim (Bool-cases (eq_text b.phase phase_completed)) [
  | inl t ↦ let same : (b, ok tt) ≡ r = ground arith in subst IsVerdict same t
  | inr f ↦ elim (Bool-cases (eq_text b.phase phase_failed)) [
    | inl g ↦
        let same : (b, err err_backup_failed) ≡ r = ground arith in
        subst IsVerdict same (f, inl (refl, g))
    | inr g ↦ k f g (ground arith)
  ]
]

poll-IsVerdict :
    (answer : Result Backup) (next : Backup → Exec (Backup × Result (Unit {0}))) (h : History)
    (r : Backup × Result (Unit {0}))
    → ((b : Backup)
        → eq_text b.phase phase_completed ≡ false
        → eq_text b.phase phase_failed ≡ false
        → (next b h).0 ≡ ok r
        → IsVerdict r)
    → (continue
        (rename_error (wrapped (codes "get cnpg backup")) answer)
        (λ b. after_poll b (next b))
        h).0
      ≡ ok r
    → IsVerdict r
poll-IsVerdict (ok b) next h r k e = after_poll-IsVerdict b (next b) h (k b) e
poll-IsVerdict (err x) next h r k e = absurd (cc e)

-- Whatever the API answers and however many ticks come before the context ends: a wait that
-- returns a backup without an error has seen it completed; with ErrBackupFailed it has seen the
-- phase "failed"; and with the context's error it has seen neither.
pub wait_backup-IsVerdict :
    (w : World) (ticks : ℕ) (namespace name : Text) (h : History) (r : Backup × Result (Unit {0}))
    → (wait_backup w ticks namespace name h).0 ≡ ok r
    → IsVerdict r
unfolding wait_backup ◌>>=◌ annotate
wait_backup-IsVerdict w zero namespace name h r e =
    poll-IsVerdict (w.backup h (get_backup namespace name)) (λ b. pure (b, err err_context)) _ r
      (λ b f g q.
        let same : (b, err err_context) ≡ r = cc q in subst IsVerdict same (f, inr (refl, g)))
      e
wait_backup-IsVerdict w (suc ticks) namespace name h r e =
    poll-IsVerdict (w.backup h (get_backup namespace name))
      (λ b. wait_backup w ticks namespace name) _ r
      (λ b f g. wait_backup-IsVerdict w ticks namespace name _ r) e
