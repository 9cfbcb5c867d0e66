-- ===== src/Cmd/Main.antt =====
-- `main` of cmd/stevy/main.go: the exit code of the process. The scheduler's loop goes on until a
-- signal ends it, with no error.
use stevy.Base.{ℕ, List}
use stevy.Base.Text.{Text}
use stevy.Cmd.{
  Command, run_migrate, run_scheduler, run_serve, show_version, show_help, unknown, command,
  exit_code, Outside, Vars, cmd_migrate, start_scheduler,
}
use stevy.Cmd.Serve.{Surroundings, cmd_serve}

abbrev pub run_command : Outside → Surroundings → Vars → List Text → Command → ℕ
run_command o w vars args run_migrate = exit_code (cmd_migrate o vars)
run_command o w vars args run_scheduler = exit_code (start_scheduler o vars)
run_command o w vars args run_serve = exit_code (cmd_serve o w vars args)
run_command o w vars args show_version = 0
run_command o w vars args show_help = 0
run_command o w vars args (unknown arg) = 2

unfoldable pub main : Outside → Surroundings → Vars → List Text → ℕ
unfolding command exit_code cmd_migrate start_scheduler cmd_serve
main o w vars args = run_command o w vars args (command args)
