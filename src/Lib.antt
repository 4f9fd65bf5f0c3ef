-- ===== src/Lib.antt =====
-- A model of cnpg-portal, the portal and command line tool that manages the tenants of a
-- CloudNativePG cluster: a database, its role, its Secret and its entry in the cluster's manifest.
--
-- Parts, and the files that model them:
--   Workspace, Workspace/Catalog: internal/workspace/workspace.go. The record Workspace is the
--     struct; `secret_name`, `secret_path`, `cluster_yaml_path`, `validate_workspace`,
--     `apply_defaults`, `load_catalog` (with `resolve_marker` for what follows the parsing),
--     `select`, `find_catalog`, `find_cluster` and `find` are the functions of those names.
--     `filepath.Join` and `filepath.Clean` are in Paths.
--   ClusterYaml, ClusterYaml/Roles, ClusterYaml/Files: internal/clusteryaml/patch.go. The yaml.Node
--     tree is the data type Node. The Go code changes the tree in place; here `on_roles` gives the
--     changed tree. `append_role` and `remove_role` read and write the file around it.
--   Postgres: internal/pg/sql.go, import.go and stream.go. Names and Quoting: the checks of names and
--     the escapes of internal/pg/sql.go and internal/connstr/connstr.go, and the three routines that
--     make Kubernetes names.
--   Sops: internal/sops/encrypt.go: the recipient of a file, the atomic write, the decryption.
--   Connstr, Url: internal/connstr/connstr.go, and the escapes of net/url that it uses.
--   Password: the password and the Secret file's text of internal/tenant; Password/ReadBack: what is
--     read back from that text.
--   Cnpg: internal/cnpg/backup.go and cluster.go: backups, their poll, recovery clusters.
--   Tenant and its children: internal/tenant, one file for a verb or a family of them (Provision,
--     Rotate, Drop, Clone for Branch and Sync, Restore, Import, Listing for the verbs that read), with
--     the steps that verbs share in Tenant/Database and Tenant/Secrets. The proofs are in Footprint,
--     Guards, Order, Reuse, Statements, Written, Passwords, Rotated, Cleanup, BranchNames, Shown and
--     Addresses.
--   Web and its children: internal/web. Identity, Admins: identity.go. Origin, Routes, Server, Config:
--     server.go, from a request to its handler (`serve`) and from the configuration to the server
--     (`serve_site`). RequestId: middleware.go. Registry: clusters.go. Pages, Forms, Views, Answers,
--     Submits: handlers.go, one definition for each handler. Context: the page context of server.go and
--     templates/context.go. The proofs are in Metadata and Reads (the calls of the handlers that show
--     something), Mounts, Middleware and Access (a request's way to its handler), Refusals and
--     Outcomes (the replies of handlers), Vouched, Cgnat, Reloading, Scanned, Granted, Targets,
--     Authorities, Origins, Links and RequestIds.
--   Cli and its children: cmd/cnpgctl. Cli: deps.go. Serve: serve.go. Commands: the commands around
--     the verbs that change a tenant. The proofs are in Clusters and Confirmed.
--
-- How they interact. World is what stands outside: the pods, the Kubernetes API, the sops program, the
-- files, the random source and the clock. A call is a value of the data type Call, the history of a
-- run is the list of its calls, the last one first, and the record World answers a call from the
-- history before it, so that every answer, every failure and every order of failures is covered. A
-- verb is a function from a history to a result and a history (Exec), composed by the steps of
-- World/Chain in the order of the source; what was called before an error stays called. World/Keeps
-- has one rule for each step, from which a verb's footprint follows. The web server and the commands
-- call the verbs; a handler makes a page of each result, its errors included. Errors are values
-- (Result); a wrapped error keeps the error that it wraps.
--
-- Texts are lists of runes, and numbers are natural numbers. Where Go counts bytes (the length of a
-- name), the names that pass the checks have one byte for each rune.
--
-- Bounds. The polls (`wait_backup`, `wait_primary_pod`, `wait_database`) take the number of ticks that
-- come before their context ends, and every theorem about them holds for every number. `itoa` has as
-- fuel its argument and one, which is more than the number of its digits. The loop that collapses
-- hyphens has as fuel the length of the text, of which each round removes at least one hyphen.
--
-- Parameters. The YAML parser and encoder (`Yaml`), the parser of .sops.yaml with `filepath.Rel` and
-- the regular expressions (`Rules`), `url.Parse` and the lowering of a host in all of Unicode
-- (`UrlLibrary`), the Kubernetes check of a Backup's name and the RFC 3339 form of a time are
-- arguments of the definitions that use them, as are chi's choice of a mount (`Router`), the addresses
-- of package net (`Net`), the parsing of a form (in `Request`) and whether a Kubernetes client can be
-- made. Encryption for a recipient is a call.
--
-- Not modelled: the templates and the assets of the web server and the parts of it that do not decide
-- anything (logging, panics, security headers, time limits, listening), the commands that read or that
-- run another program (list, status, dump, psql, backup, version), the Kubernetes client
-- (internal/k8s), the binding to the SOPS library (internal/sops/encrypt_native.go) and the version
-- stamp. Logging is left out everywhere.
pub mod Prelude
pub mod Strings
pub mod Names
pub mod Result
pub mod Quoting
pub mod Paths
pub mod Workspace
pub mod ClusterYaml
pub mod World
pub mod Postgres
pub mod Sops
pub mod Url
pub mod Connstr
pub mod Password
pub mod Cnpg
pub mod Tenant
pub mod Web
pub mod Cli
pub mod Tests
