-- ===== src/Web.antt =====
-- internal/web: a request, what the middleware knows of it, and the reply.
use cnpg_portal.Prelude.{Text, ℕ, List, Option, Bool}
use cnpg_portal.Result.{Result}
pub mod Identity
pub mod Admins
pub mod Origin
pub mod Registry
pub mod RequestId
pub mod Pages
pub mod Forms
pub mod Answers
pub mod Submits
pub mod Views
pub mod Routes
pub mod Server
pub mod Config
pub mod Granted
pub mod Metadata
pub mod Reads
pub mod Mounts
pub mod Middleware
pub mod Access
pub mod Vouched
pub mod Cgnat
pub mod Reloading
pub mod Scanned
pub mod Targets
pub mod Context
pub mod Links
pub mod RequestIds
pub mod Refusals
pub mod Outcomes
pub mod Authorities
pub mod Origins

-- `header` is `r.Header.Get`, which is "" for a missing header; `form` and `multipart` are what
-- parsing the body gives, with `r.FormValue` of each field; `name` and `pid` are the parts of the
-- path that the route names.
pub record Request : Type 0 where
  pub method : Text
  pub host : Text
  pub remote_addr : Text
  pub header : Text → Text
  pub form : Result (Text → Text)
  pub multipart : Result (Text → Text)
  pub upload : Option Text
  pub name : Text
  pub pid : Text
  pub msg : Text
