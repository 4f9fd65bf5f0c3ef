-- ===== src/Tenant/Cleanup.antt =====
-- internal/tenant/restore.go: the deletion of the recovery cluster.
use cnpg_portal.Prelude.{sym, subst, codes, ℕ, Bool, Option, refl, ◌∷◌, Text, ◌≡◌, some, arith}
use cnpg_portal.Result.{Result, Error, ok, err, wrapped}
use cnpg_portal.World.{
  ask_cluster, ask_number, list_backups, get_cluster, clock, create_cluster, Recovery, Manifest,
  Conn, ask_done, delete_cluster, World, History, Exec,
}
use cnpg_portal.World.Chain.{continue, rename_error, lift, ◌>>◌, annotate, outcome, ◌>>=◌}
use cnpg_portal.Workspace.{Workspace}
use cnpg_portal.Tenant.Restore.{restore_steps, with_recovery}
use cnpg_portal.Cnpg.{
  sorted_backups, get_base_cluster, recovery_cluster_name, create_recovery_cluster,
  delete_recovery_cluster,
}
use cnpg_portal.Sops.{or_cleanup}
use cnpg_portal.Sops.Atomic.{last_call}

module _ (w : World) where
  -- Whatever is done with the recovery cluster, the last call is its deletion.
  with_recovery-deletes :
      (namespace name : Text) (body : Exec (Unit {0})) (h : History)
      → last_call (with_recovery w namespace name body h).1 ≡ some (delete_cluster namespace name)
  unfolding with_recovery ◌>>=◌ outcome annotate delete_recovery_cluster or_cleanup
  with_recovery-deletes namespace name body h = ground arith

  -- It reports success only when the body has succeeded and the recovery cluster is deleted.
  pub with_recovery-ok :
      (namespace name : Text) (body : Exec (Unit {0})) (h : History)
      → (with_recovery w namespace name body h).0 ≡ ok tt
      → ((body h).0 ≡ ok tt) × (w.done (body h).1 (delete_cluster namespace name) ≡ ok tt)
  unfolding with_recovery ◌>>=◌ outcome annotate delete_recovery_cluster or_cleanup
  with_recovery-ok namespace name body h = ground arith

-- either way that a first step ends
bind-cases {ℓ κ} :
    {A : Type ℓ} {B : Type κ} (P : Result B × History → Type 0) (m : Exec A) (f : A → Exec B)
    (h : History)
    → ((e : Error) → (m h).0 ≡ err e → P (err e, (m h).1))
    → ((a : A) → (m h).0 ≡ ok a → P (f a (m h).1))
    → P ((m >>= f) h)
unfolding ◌>>=◌
bind-cases {A} P m f h k l = go (m h).0 refl
  where
    go : (r : Result A) → (m h).0 ≡ r → P (continue r f (m h).1)
    go (err e) p = k e p
    go (ok a) p = l a p

module _ (w : World) (ws : Workspace) (app : Text) (h : History) where
  abbrev pub listed : History
  listed = list_backups ws.namespace ∷ h

  abbrev pub based : History
  based = get_cluster ws.namespace ws.cluster_name ∷ listed

  abbrev pub timed : History
  timed = clock ∷ based

  abbrev pub recovery_name : Text
  recovery_name = recovery_cluster_name app (w.number based clock)

  -- How a restore ends: with an error before it has asked for a cluster, with an error where the
  -- creation of the cluster was refused, or, where it was made, with its deletion.
  pub data IsCleaned : Result (Unit {0}) × History → Type 0 where
    unlisted : (e : Error) → IsCleaned (err e, listed)
    unbased : (e : Error) → IsCleaned (err e, based)
    unasked : (e : Error) → IsCleaned (err e, timed)
    refused :
        (r : Recovery) (e e' : Error)
        → w.done timed (create_cluster r) ≡ err e'
        → IsCleaned (err e, create_cluster r ∷ timed)
    deleted :
        (r : Recovery) (result : Result (Unit {0})) (past : History)
        → r.namespace ≡ ws.namespace
        → r.name ≡ recovery_name
        → w.done timed (create_cluster r) ≡ ok tt
        → last_call past ≡ some (delete_cluster ws.namespace recovery_name)
        → IsCleaned (result, past)

  -- how the request for the cluster ends
  data IsAsked : Result (Unit {0}) × History → Type 0 where
    no_request : (e : Error) → IsAsked (err e, timed)
    no_cluster :
        (r : Recovery) (e e' : Error)
        → w.done timed (create_cluster r) ≡ err e'
        → IsAsked (err e, create_cluster r ∷ timed)
    made :
        (r : Recovery)
        → r.namespace ≡ ws.namespace
        → r.name ≡ recovery_name
        → w.done timed (create_cluster r) ≡ ok tt
        → IsAsked (ok tt, create_cluster r ∷ timed)

  asked :
      (r : Recovery)
      → r.namespace ≡ ws.namespace
      → r.name ≡ recovery_name
      → IsAsked (
          annotate
            (wrapped (codes "create recovery cluster"))
            (ask_done w (create_cluster r))
            timed)
  unfolding annotate ask_done
  asked r p q = go (w.done timed (create_cluster r)) refl
    where
      go :
          (o : Result (Unit {0}))
          → w.done timed (create_cluster r) ≡ o
          → IsAsked
              (rename_error (wrapped (codes "create recovery cluster")) o, create_cluster r ∷ timed)
      go (err e) f = no_cluster r _ e f
      go (ok u) f = made r p q f

  created :
      (backup_id : Text) (base : Manifest) (target_time : Option Text)
      → IsAsked
          (create_recovery_cluster w ws.namespace recovery_name backup_id base target_time timed)
  unfolding create_recovery_cluster lift
  created backup_id base target_time =
      bind-cases IsAsked (lift _) _ timed (λ e p. no_request e)
        λ a p.
          bind-cases IsAsked (lift _) _ timed (λ e p. no_request e)
            λ a p.
              bind-cases IsAsked (lift _) _ timed (λ e p. no_request e)
                λ a p.
                  bind-cases IsAsked (lift _) _ timed (λ e p. no_request e)
                    λ a p.
                      bind-cases IsAsked (lift _) _ timed (λ e p. no_request e)
                        λ store p. asked _ refl refl

  cleaned :
      (body : Exec (Unit {0})) (s : Result (Unit {0}) × History)
      → IsAsked s
      → IsCleaned (continue s.0 (λ _. with_recovery w ws.namespace recovery_name body) s.1)
  cleaned body s (no_request e) = unasked e
  cleaned body s (no_cluster r e e' f) = refused r e e' f
  cleaned body s (made r p q f) =
      deleted r _ _ p q f (with_recovery-deletes w ws.namespace recovery_name body _)

  sorted_backups-calls :
      (g : Error → Error)
      → (annotate g (sorted_backups w ws.namespace ws.cluster_name) h).1 ≡ listed
  unfolding sorted_backups annotate ◌>>=◌
  sorted_backups-calls g = ground arith

  bind_number :
      (f : ℕ → Exec (Unit {0}))
      → IsCleaned (f (w.number based clock) timed)
      → IsCleaned ((ask_number w clock >>= f) based)
  unfolding ◌>>=◌
  bind_number f k = k

  bind_asked :
      (body : Exec (Unit {0})) (m : Exec (Unit {0}))
      → IsAsked (m timed)
      → IsCleaned ((m >> with_recovery w ws.namespace recovery_name body) timed)
  unfolding ◌>>=◌
  bind_asked body m k = cleaned body (m timed) k

  module _ (ok_name : Text → Bool) (pod_ticks probe_ticks : ℕ) where
    -- Whatever answers a restore gets: either no recovery cluster was made, and it ends with an error
    -- and with the calls up to the refused creation, or it was made, under the name for the time of
    -- the restore, and then the last call of the run is its deletion, whether the restore succeeds or
    -- fails at any step.
    pub restore_steps-IsCleaned :
        (c : Conn) (backup_name : Text) (target_time : Option Text)
        → IsCleaned
            (restore_steps w ok_name pod_ticks probe_ticks c ws app backup_name target_time h)
    unfolding restore_steps lift get_base_cluster annotate ask_cluster
    restore_steps-IsCleaned c backup_name target_time =
        let calls = sorted_backups-calls (wrapped (codes "list backups")) in
        bind-cases IsCleaned _ _ h
          (λ e p. subst (λ k. IsCleaned (err e, k)) (sym calls) (unlisted e))
          λ backups p. rw calls (
            bind-cases IsCleaned (lift _) _ listed (λ e q. unlisted e)
              λ chosen q.
                bind-cases IsCleaned (get_base_cluster w ws.namespace ws.cluster_name) _ listed
                  (λ e r. unbased e)
                  λ base r.
                    bind_number _ (bind_asked _ _ (created chosen.backup_id base target_time)))
