-- ===== src/Connstr.antt =====
-- internal/connstr/connstr.go: the renderers of a tenant's credentials.
use cnpg_portal.Prelude.{
  ℕ, Text, codes, eq_text, List, [], ◌∷◌, ◌++◌, Option, none, some, if◌then◌else◌,
}
use cnpg_portal.Strings.{join}
use cnpg_portal.Strings.Decimal.{itoa}
use cnpg_portal.Url.{postgres_url, query_escape}
use cnpg_portal.Quoting.{sh_quote, libpq_escape}

pub record Inputs : Type 0 where
  pub host : Text
  pub port : ℕ
  pub database : Text
  pub user : Text
  pub password : Text

abbrev pub host_port : Inputs → Text
host_port i = i.host ++ (codes ":" ++ itoa i.port)

unfoldable pub render_url : Inputs → Text
render_url i = postgres_url i.user i.password (host_port i) i.database

unfoldable pub render_prisma_url : Inputs → Text
render_prisma_url i =
    postgres_url i.user i.password (host_port i) i.database
    ++ codes "?schema=public&sslmode=require"

unfoldable pub render_libpq : Inputs → Text
render_libpq i = join (codes " ") (
    (codes "host=" ++ i.host)
    ∷ (codes "port=" ++ itoa i.port)
    ∷ (codes "dbname=" ++ i.database)
    ∷ (codes "user=" ++ i.user)
    ∷ (codes "password=" ++ libpq_escape i.password)
    ∷ [])

-- `Values.Encode` sorts the keys: the password comes before the user
unfoldable pub render_jdbc : Inputs → Text
render_jdbc i =
    codes "jdbc:postgresql://"
    ++ (i.host
        ++ (codes ":"
            ++ (itoa i.port
                ++ (codes "/"
                    ++ (i.database
                        ++ (codes "?password="
                            ++ (query_escape i.password
                                ++ (codes "&user=" ++ query_escape i.user))))))))

unfoldable pub render_env : Inputs → Text
render_env i = join (10 ∷ []) (
    (codes "PGHOST=" ++ i.host)
    ∷ (codes "PGPORT=" ++ itoa i.port)
    ∷ (codes "PGDATABASE=" ++ i.database)
    ∷ (codes "PGUSER=" ++ i.user)
    ∷ (codes "PGPASSWORD=" ++ sh_quote i.password)
    ∷ [])

unfoldable pub render_psql : Inputs → Text
render_psql i =
    codes "PGPASSWORD="
    ++ (sh_quote i.password
        ++ (codes " psql -h "
            ++ (i.host
                ++ (codes " -p "
                    ++ (itoa i.port ++ (codes " -U " ++ (i.user ++ (codes " " ++ i.database))))))))

pub record Format : Type 0 where
  pub id : Text
  pub render : Inputs → Text

abbrev pub all_formats : List Format
all_formats =
    record { id = codes "url"; render = render_url }
    ∷ record { id = codes "url-prisma"; render = render_prisma_url }
    ∷ record { id = codes "libpq"; render = render_libpq }
    ∷ record { id = codes "jdbc"; render = render_jdbc }
    ∷ record { id = codes "env"; render = render_env }
    ∷ record { id = codes "psql"; render = render_psql }
    ∷ []

unfoldable pub find_format : Text → List Format → Option Format
find_format id [] = none
find_format id (f ∷ fs) = if eq_text f.id id then some f else find_format id fs
