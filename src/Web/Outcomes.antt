-- ===== src/Web/Outcomes.antt =====
-- What the handlers of a change answer when they have run the verb (internal/web/handlers.go).
use cnpg_portal.Prelude.{Text, codes, ◌++◌, ◌≡◌}
use cnpg_portal.Result.{Error, Result, ok, err}
use cnpg_portal.World.{World, Exec, History}
use cnpg_portal.Tenant.Rotate.{rotate}
use cnpg_portal.Web.Routes.{rotate as rotate_route}
use cnpg_portal.Web.Pages.{Page, Reply, Context, html, error_page}

-- A failure is answered by the status 500 and a page that shows the request's ID, and nothing of the
-- error; a success by the status 200 and the page of what has been done.
pub data IsOutcome {ℓ} {A : Type ℓ} (x : Context) (page : A → Page)
    : Result A → Reply → Type ℓ where
  failed :
      (e : Error) (title : Text)
      → IsOutcome x page (err e) (
          html 500 (
            error_page title (
              codes "The operation failed. Check the server log with request ID "
              ++ (x.rid ++ codes "."))))
  done : (a : A) → IsOutcome x page (ok a) (html 200 (page a))

-- the handler makes the calls of the verb and no other, and answers what came out
abbrev pub Answers {ℓ} :
    {A : Type ℓ} → Context → (A → Page) → Exec A → Exec Reply → History → Type ℓ
Answers {A} x page verb m past =
    (reply : Reply) × (m past ≡ (ok reply, (verb past).1)) × IsOutcome x page (verb past).0 reply
