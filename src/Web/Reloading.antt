-- ===== src/Web/Reloading.antt =====
-- The life of the list of the admins (internal/web/identity.go): it is made, and then reloaded at
-- every SIGHUP, whatever the file holds by then.
use cnpg_portal.Prelude.{
  Option, none, some, eq_text, eq_text_iff, if◌then◌else◌, true, ◌∙◌, sym, subst, Text, List, [],
  ◌∷◌, false, is_empty, ◌≡◌, refl, arith,
}
use cnpg_portal.Result.{Error, is_missing, Result, ok, err}
use cnpg_portal.World.{World, History, read_file}
use cnpg_portal.World.Chain.{◌>>=◌, outcome}
use cnpg_portal.Web.Admins.{
  AdminList, set_bearer_admin, grant_dev_fallback, scan_admins, reloaded, reload, reload_or_keep,
  new_admin_list, on_sighup,
}

-- the list, and the calls so far
abbrev pub State : Type 0
State = AdminList × History

pub data Step (w : World) : State → State → Type 0 where
  grant :
      (login : Text) (a : AdminList) (h : History) → Step w (a, h) (grant_dev_fallback login a, h)
  bearer :
      (login : Text) (a : AdminList) (h : History) → Step w (a, h) (set_bearer_admin login a, h)
  sighup : (a b : AdminList) (h h' : History) → on_sighup w a h ≡ (ok b, h') → Step w (a, h) (b, h')

pub data Reachable (w : World) (path : Text) : State → Type 0 where
  start :
      (a : AdminList) (h h' : History)
      → new_admin_list w path h ≡ (ok a, h')
      → Reachable w path (a, h')
  next : {s t : State} → Reachable w path s → Step w s t → Reachable w path t

-- what one reading of the file gives: a missing file is an empty list, and `none` is a failure
abbrev pub reading : Result Text → Option (List Text)
reading (err e) = if is_missing e then some [] else none
reading (ok text) = elim (scan_admins text) [ err e ↦ none | ok logins ↦ some logins ]

-- the reading in the answer to the call after `h`, or else an older one
abbrev pub or_older : Option (List Text) → Option (List Text) → Option (List Text)
or_older (some logins) older = some logins
or_older none older = older

-- the last reading of the file at `path` in a history that did not fail
unfoldable pub last_reading : World → Text → History → Option (List Text)
last_reading w path [] = none
last_reading w path (read_file p ∷ h) =
    let older = last_reading w path h in
    if eq_text p path then or_older (reading (w.text h (read_file p))) older else older
last_reading w path (_ ∷ h) = last_reading w path h

abbrev pub IsReading : World → Text → State → Type 0
IsReading w path s = (s.0.path ≡ path) × (last_reading w path s.1 ≡ some s.0.logins)

reload-eq :
    (w : World) (a : AdminList) (h : History)
    → is_empty a.path ≡ false
    → reload w a h ≡ (reloaded a (w.text h (read_file a.path)), read_file a.path ∷ h)
unfolding reload ◌>>=◌ outcome
reload-eq w a h e = ground arith

module _ (w : World) (path : Text) (named : is_empty path ≡ false) where
  is_named : (a : AdminList) → a.path ≡ path → is_empty a.path ≡ false
  is_named a p = subst (λ q. is_empty q ≡ false) (sym p) named

  -- a reload in the history: what it read, or what the older ones did
  last_reading-reload :
      (a : AdminList) (h : History)
      → a.path ≡ path
      → last_reading w path (reload w a h).1
        ≡ or_older (reading (w.text h (read_file a.path))) (last_reading w path h)
  unfolding last_reading
  last_reading-reload a h p =
      let e = reload-eq w a h (is_named a p) in
      let same : eq_text a.path path ≡ true = (eq_text_iff _ _).1 p in rw e (rw same refl)

  reloaded-ok :
      (a : AdminList) (r : Result Text) {b : AdminList}
      → reloaded a r ≡ ok b
      → (b.path ≡ a.path) × (reading r ≡ some b.logins)
  unfolding reloaded
  reloaded-ok a r e = ground arith

  reloaded-err :
      (a : AdminList) (r : Result Text) {x : Error} → reloaded a r ≡ err x → reading r ≡ none
  unfolding reloaded
  reloaded-err a r e = ground arith

  answered :
      (a : AdminList) (h : History)
      → a.path ≡ path
      → reloaded a (w.text h (read_file a.path)) ≡ (reload w a h).0
  answered a h p = λ i. (sym (reload-eq w a h (is_named a p)) i).0

  start-IsReading :
      (a : AdminList) (h : History) {b : AdminList}
      → a.path ≡ path
      → (reload w a h).0 ≡ ok b
      → IsReading w path (b, (reload w a h).1)
  start-IsReading a h {b} p e =
      let (kept, read) = reloaded-ok a _ (answered a h p ∙ e) in
      (kept ∙ p, rw (last_reading-reload a h p) (rw read refl))

  kept-IsReading :
      (a : AdminList) (h : History) (r : Result AdminList)
      → IsReading w path (a, h)
      → (reload w a h).0 ≡ r
      → IsReading w path (reload_or_keep a r, (reload w a h).1)
  unfolding reload_or_keep
  kept-IsReading a h (ok b) g e = start-IsReading a h g.0 e
  kept-IsReading a h (err x) g e =
      let failed = reloaded-err a _ (answered a h g.0 ∙ e) in
      (g.0, rw (last_reading-reload a h g.0) (rw failed g.1))

  on_sighup-IsReading :
      (a b : AdminList) (h h' : History)
      → IsReading w path (a, h)
      → on_sighup w a h ≡ (ok b, h')
      → IsReading w path (b, h')
  unfolding on_sighup ◌>>=◌ outcome
  on_sighup-IsReading a b h h' g e =
      let same : ◌≡◌ {A = State} (reload_or_keep a (reload w a h).0, (reload w a h).1) (b, h') =
        cc e in
      subst (IsReading w path) same (kept-IsReading a h _ g refl)

  grant_dev_fallback-eq :
      (login : Text) (a : AdminList) → a.path ≡ path → grant_dev_fallback login a ≡ a
  unfolding grant_dev_fallback
  grant_dev_fallback-eq login a p = let f = is_named a p in ground arith

  Step-IsReading : {s t : State} → Step w s t → IsReading w path s → IsReading w path t
  unfolding set_bearer_admin
  Step-IsReading (grant login a h) g =
      subst (λ b. IsReading w path (b, h)) (sym (grant_dev_fallback-eq login a g.0)) g
  Step-IsReading (bearer login a h) g = g
  Step-IsReading (sighup a b h h' e) g = on_sighup-IsReading a b h h' g e

  -- With a path of an admin list, whatever fallbacks and bearer logins are granted and however often
  -- the list is reloaded, the logins on it are exactly those of the last reading of that file that
  -- did not fail, a missing file being read as an empty list: a later reading that fails keeps them,
  -- and no fallback adds to them.
  pub Reachable-IsReading : {s : State} → Reachable w path s → IsReading w path s
  unfolding new_admin_list
  Reachable-IsReading (start a h h' e) =
      let same : ◌≡◌ {A = State}
          (a, (reload w (record { logins = []; path = path; bearer_admin = [] }) h).1) (a, h') =
        λ i. (a, (e i).1) in
      subst (IsReading w path) same (start-IsReading _ h refl (λ i. (e i).0))
  Reachable-IsReading (next r s) = Step-IsReading s (Reachable-IsReading r)
