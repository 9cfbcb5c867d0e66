-- ===== src/Cmd/Starts.antt =====
-- When `cmdServe` of cmd/stevy/main.go comes to listen.
use stevy.Base.{List, ◌++◌}
use stevy.Base.Text.{Text, text_eq}
use stevy.Cmd.{Vars, Outside}
use stevy.Cmd.Serve.{Surroundings, spec_patterns, public_patterns}

module _ (o : Outside) (w : Surroundings) (vars : Vars) (args : List Text) where
  abbrev file_routes : List Text
  file_routes = spec_patterns w.read_spec ++ public_patterns w.read_public
