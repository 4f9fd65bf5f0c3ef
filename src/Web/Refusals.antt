-- ===== src/Web/Refusals.antt =====
-- The checks of a request at the start of a handler (internal/web/handlers.go).
use cnpg_portal.Prelude.{
  not, ltb, ℤ, pos, negsuc, Bool-cases, inl, inr, if◌then◌else◌, arith, Text, codes, ℕ, Bool, true,
  false, ◌&&◌, ◌≡◌, refl, eq_text, is_empty, Option, none, some,
}
use cnpg_portal.Result.{Result, ok, err}
use cnpg_portal.World.{World, Exec, History}
use cnpg_portal.World.Chain.{pure}
use cnpg_portal.Sops.{Rules}
use cnpg_portal.ClusterYaml.Roles.{Yaml}
use cnpg_portal.Names.{ident_safe, database_name_safe}
use cnpg_portal.Strings.{to_lower}
use cnpg_portal.Strings.Decimal.{atoi, is_positive_int, is_positive_int-atoi}
use cnpg_portal.Web.Routes.{
  Action, detail, dump, conns, new, terminate, branch_form, branch, sync_form, sync, drop_form,
  drop, restore_form, restore, rotate_form, rotate,
}
use cnpg_portal.Web.Server.{handle}
use cnpg_portal.Web.Views.{show_tenant, show_connections, dump_tenant}
use cnpg_portal.Web.Forms.{show_branch, show_drop, show_rotate, show_sync, show_restore}
use cnpg_portal.Web.{Request}
use cnpg_portal.Web.Answers.{Platform, field, branch_fault, positive_pid}
use cnpg_portal.Web.Pages.{
  Reply, Page, Handlers, Context, html, with_form, check, render_error, error_text,
}
use cnpg_portal.Web.Submits.{
  submit_drop, submit_rotate, submit_branch, submit_new_tenant, submit_terminate, submit_sync,
  submit_restore,
}

-- a page with the status 400, and no call
abbrev pub IsBadRequest : Exec Reply → History → Type 0
IsBadRequest m past = (page : Page) × (m past ≡ (ok (html 400 page), past))

-- a form that was read and in which a test holds
abbrev pub form_says : Request → ((Text → Text) → Bool) → Bool
form_says q test = elim q.form [ err e ↦ false | ok form ↦ test form ]

bad : {past : History} (page : Page) → IsBadRequest (pure (html 400 page)) past
unfolding pure
bad page = (page, refl)

IsBadRequest-check :
    (b : Bool) (page : Page) (m : Exec Reply) (past : History)
    → (b ≡ true → IsBadRequest m past)
    → IsBadRequest (check b (html 400 page) m) past
IsBadRequest-check true page m past k = k refl
IsBadRequest-check false page m past k = bad page

IsBadRequest-form :
    (x : Context) (q : Request) (rest : (Text → Text) → Exec Reply) (past : History)
    (test : (Text → Text) → Bool)
    → form_says q test ≡ false
    → ((form : Text → Text) → test form ≡ false → IsBadRequest (rest form) past)
    → IsBadRequest (with_form x q rest) past
unfolding with_form render_error
IsBadRequest-form x q rest past test f k = go q.form f
  where
    go :
        (r : Result (Text → Text))
        → (elim r [ err e ↦ false | ok form ↦ test form ]) ≡ false
        → IsBadRequest
            (elim r [
              | err e ↦ pure (render_error x 400 (codes "invalid form") (error_text e))
              | ok form ↦ rest form
            ])
            past
    go (err e) f = bad _
    go (ok form) f = k form f

-- what a handler asks of the request itself
abbrev pub confirms : Request → Bool
confirms q = form_says q λ form. eq_text (field form (codes "confirm")) q.name

-- another name than the source's, and a safe one
abbrev pub is_destination : Text → Text → Bool
is_destination src dst = not (eq_text dst src) && ident_safe dst

branch_fault-eq :
    (src dst : Text) → is_destination src dst ≡ false → is_empty (branch_fault src dst) ≡ false
unfolding branch_fault
branch_fault-eq src dst f = ground arith

positive_pid-eq : (s : Text) → is_positive_int s ≡ false → positive_pid s ≡ none
unfolding positive_pid
positive_pid-eq s f = go (atoi s) refl
  where
    go :
        (o : Option ℤ)
        → atoi s ≡ o
        → (elim o [
          | none ↦ none
          | some z ↦ elim z [ pos n ↦ if ltb 0 n then some n else none | negsuc n ↦ none ]
        ])
          ≡ none
    go none e = refl
    go (some (negsuc n)) e = refl
    go (some (pos n)) e = elim (Bool-cases (ltb 0 n)) [
      | inl t ↦ absurd (cc (is_positive_int-atoi n t s e, f))
      | inr t ↦ rw t refl
    ]

abbrev pub fits : Action → Request → Bool
fits detail q = database_name_safe q.name
fits dump q = database_name_safe q.name
fits conns q = database_name_safe q.name
fits terminate q = database_name_safe q.name && is_positive_int q.pid
fits new q = form_says q λ form. ident_safe (field form (codes "app"))
fits branch_form q = database_name_safe q.name
fits branch q =
    database_name_safe q.name
    && form_says q λ form. is_destination q.name (to_lower (field form (codes "dst")))
fits sync_form q = ident_safe q.name
fits sync q = ident_safe q.name && form_says q λ form. true
fits drop_form q = ident_safe q.name
fits drop q = ident_safe q.name && confirms q
fits restore_form q = ident_safe q.name
fits restore q = ident_safe q.name && form_says q λ form. true
fits rotate_form q = ident_safe q.name
fits rotate q = ident_safe q.name && confirms q
fits _ q = true

module _ (w : World) (rules : Rules) (yaml : Yaml) (p : Platform) (h : Handlers) (x : Context)
    (q : Request) (past : History) where
  -- the name is checked first, and then the form
  named_form :
      (b : Bool) (page : Page) (rest : (Text → Text) → Exec Reply) (test : (Text → Text) → Bool)
      → (b && form_says q test) ≡ false
      → ((form : Text → Text) → test form ≡ false → IsBadRequest (rest form) past)
      → IsBadRequest (check b (html 400 page) (with_form x q rest)) past
  named_form true page rest test f k = IsBadRequest-form x q rest past test f k
  named_form false page rest test f k = bad page

  confirmed_form :
      (page : Page) (rest : Exec Reply) (b : Bool)
      → b ≡ false
      → IsBadRequest (check b (html 400 page) rest) past
  confirmed_form page rest b f = IsBadRequest-check b page rest past λ t. absurd (cc (t, f))

  positive :
      (b : Bool) (page other : Page) (rest : ℕ → Exec Reply)
      → (b && is_positive_int q.pid) ≡ false
      → IsBadRequest
          (check b
            (html 400 page)
            (elim (positive_pid q.pid) [ none ↦ pure (html 400 other) | some n ↦ rest n ]))
          past
  positive false page other rest f = bad page
  positive true page other rest f = rw (positive_pid-eq q.pid f) (bad other)

  -- A handler whose request does not fit answers 400 and makes no call: where the name in the path
  -- is not safe; where the form cannot be read; where the name of a new tenant or of a branch is
  -- not safe or is the source's; where a drop or a rotation is not confirmed by the tenant's name;
  -- and where the process to terminate is not a number from 1 to 2^63 - 1 in decimal digits.
  pub handle-IsBadRequest :
      (a : Action) → fits a q ≡ false → IsBadRequest (handle w rules yaml p a h x q) past
  unfolding handle show_tenant dump_tenant show_connections show_branch show_drop show_rotate
      show_sync show_restore submit_new_tenant submit_branch submit_drop submit_rotate submit_sync
      submit_restore submit_terminate render_error
  handle-IsBadRequest detail f = confirmed_form _ _ _ f
  handle-IsBadRequest dump f = confirmed_form _ _ _ f
  handle-IsBadRequest conns f = confirmed_form _ _ _ f
  handle-IsBadRequest branch_form f = confirmed_form _ _ _ f
  handle-IsBadRequest sync_form f = confirmed_form _ _ _ f
  handle-IsBadRequest drop_form f = confirmed_form _ _ _ f
  handle-IsBadRequest restore_form f = confirmed_form _ _ _ f
  handle-IsBadRequest rotate_form f = confirmed_form _ _ _ f
  handle-IsBadRequest terminate f = positive _ _ _ _ f
  handle-IsBadRequest new f = IsBadRequest-form x q _ past _ f λ form g. confirmed_form _ _ _ g
  handle-IsBadRequest branch f =
      named_form _ _ _ _ f λ form g. confirmed_form _ _ _ (branch_fault-eq _ _ g)
  handle-IsBadRequest sync f = named_form _ _ _ (λ form. true) f λ form g. absurd (cc g)
  handle-IsBadRequest drop f = named_form _ _ _ _ f λ form g. confirmed_form _ _ _ g
  handle-IsBadRequest restore f = named_form _ _ _ (λ form. true) f λ form g. absurd (cc g)
  handle-IsBadRequest rotate f = named_form _ _ _ _ f λ form g. confirmed_form _ _ _ g
  handle-IsBadRequest _ f = absurd (cc f)
