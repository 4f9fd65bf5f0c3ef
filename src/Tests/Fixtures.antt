-- ===== src/Tests/Fixtures.antt =====
-- A workspace, a manifest and an outside that answers every call well.
use cnpg_portal.Prelude.{ℕ, Text, codes, List, [], ◌∷◌, true, some}
use cnpg_portal.Result.{Result, ok, err, err_missing}
use cnpg_portal.World.{
  World, Conn, Secret, Manifest, Backup, Call, History, stat, random_bytes, create_temp,
}
use cnpg_portal.Sops.{Rules}
use cnpg_portal.ClusterYaml.{nil, from_items, sequence_node, cons, node, Node, document_node}
use cnpg_portal.ClusterYaml.Roles.{scalar, mapping, Yaml, Role}
use cnpg_portal.Workspace.{Workspace}

abbrev pub site : Workspace
site = record {
  root = codes "/srv/ws";
  id = codes "main";
  display_name = codes "main";
  cluster_yaml = codes "k8s/cluster.yaml";
  secrets_dir = codes "secrets/pg";
  namespace = codes "pg";
  pod = codes "postgres-main-1";
  container = codes "postgres";
  cluster_name = codes "postgres-main";
  service_name = codes "postgres-main";
  secret_prefix = [];
}

abbrev pub app : Text
app = codes "shop_a"

abbrev pub primary : Conn
primary = record {
  namespace = codes "pg";
  pod = codes "postgres-main-1";
  container = codes "postgres";
}

-- the random source's bytes and the text of every other answer
abbrev pub answer_text : History → Call → Result Text
answer_text h (stat path) = err err_missing
answer_text h (random_bytes n) = ok (7 ∷ 200 ∷ 33 ∷ [])
answer_text h (create_temp folder) = ok (codes "/srv/ws/tmp")
answer_text h _ = ok []

abbrev pub stored : Secret
stored = record { username = some (codes "shop_a"); password = some (codes "old") }

abbrev pub base : Manifest
base = record {
  name = codes "postgres-main";
  image_name = codes "pg:17";
  storage = codes "20Gi";
  plugins = some ((codes "barman-cloud.cloudnative-pg.io", codes "store") ∷ []);
}

abbrev pub backup : Text → Text → ℕ → Backup
backup name phase started = record {
  name = name;
  cluster = codes "postgres-main";
  backup_id = codes "id";
  method = codes "plugin";
  phase = phase;
  started_at = started;
  stopped_at = started;
  dest_path = [];
}

abbrev pub outside : World
outside = record {
  text = answer_text;
  done = λ h c. ok tt;
  both = λ h c. (ok tt, ok tt);
  secret = λ h c. ok stored;
  backups = λ h c. ok [];
  backup = λ h c. ok (backup (codes "b") (codes "completed") 5);
  cluster = λ h c. ok base;
  pods = λ h c. ok [];
  number = λ h c. 4096;
}

abbrev pub rules : Rules
rules = record {
  parse = λ text. ok ((record { path_regex = codes "secrets/"; age = codes "age1x" }) ∷ []);
  rel = λ root target. ok target;
  matches = λ pattern path. ok true;
}

abbrev pub roles_document : List Node → Node
roles_document roles = node document_node [] [] [] (
    cons
      (mapping (
        scalar (codes "spec")
        ∷ mapping (
            scalar (codes "managed")
            ∷ mapping (scalar (codes "roles") ∷ node sequence_node [] [] [] (from_items roles) ∷ [])
            ∷ [])
        ∷ []))
      nil)

abbrev pub yaml : Yaml
yaml = record { parse = λ text. ok (roles_document []); encode = λ doc. ok (codes "spec:") }

abbrev pub role : Role
role = record {
  name = codes "shop_a";
  comment = [];
  password_secret = codes "shop-a-pg-credentials";
}
