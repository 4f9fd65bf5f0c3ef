-- ===== src/Postgres/Footprint.antt =====
-- The calls that the SQL helpers make: commands in the pod that they are given.
use cnpg_portal.Prelude.{Text, List, Option}
use cnpg_portal.World.{World, Conn, Call, History, exec}
use cnpg_portal.World.Keeps.{Keeps, Grows, keeps_rules, Keeps-ask_text}
use cnpg_portal.Postgres.{
  exec_in, run_sql, run_query, pg_dump_restore, restore_custom_from_reader, restore_sql_from_reader,
}

module _ {P : History → Type 0} {Allowed : Call → Type 0} (w : World) (grows : Grows P Allowed)
    (c : Conn)
    (allowed : (command : List Text) (stdin : Option Text) → Allowed (exec c command stdin)) where
  Keeps-exec_in : (command : List Text) (stdin : Option Text) → Keeps P (exec_in w c command stdin)
  unfolding exec_in
  Keeps-exec_in command stdin =
      search (keeps_rules, Keeps-ask_text w grows (exec c command stdin) (allowed command stdin))

  pub Keeps-run_sql : (db script : Text) → Keeps P (run_sql w c db script)
  unfolding run_sql
  Keeps-run_sql db script = search (Keeps-exec_in)

  pub Keeps-run_query : (db query : Text) → Keeps P (run_query w c db query)
  unfolding run_query
  Keeps-run_query db query = search (keeps_rules, Keeps-exec_in)

  pub Keeps-pg_dump_restore : (src dst : Text) → Keeps P (pg_dump_restore w c src dst)
  unfolding pg_dump_restore
  Keeps-pg_dump_restore src dst = search (keeps_rules, Keeps-exec_in)

  pub Keeps-restore_custom : (dst dump : Text) → Keeps P (restore_custom_from_reader w c dst dump)
  unfolding restore_custom_from_reader
  Keeps-restore_custom dst dump = search (keeps_rules, Keeps-ask_text w grows, allowed)

  pub Keeps-restore_sql : (dst dump : Text) → Keeps P (restore_sql_from_reader w c dst dump)
  unfolding restore_sql_from_reader
  Keeps-restore_sql dst dump = search (keeps_rules, Keeps-ask_text w grows, allowed)
