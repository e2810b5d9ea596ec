-- ===== src/Work/Tests.antt =====
-- internal/server.go: the theorems on the life of one connection, at an empty manager, and where the id
-- is another worker's.
use fabrica_net.Base.{true, false, some, [], ◌∷◌, pos, arith}
use fabrica_net.Session.{Session, default_session}
use fabrica_net.Life.{Answers}
use fabrica_net.Life
use fabrica_net.Workers.{Worker, new_worker_manager, worker}
use fabrica_net.Workers.Shard.{new_worker_manager-IsSharded}
use fabrica_net.Work.{State, Outside, work}
use fabrica_net.Work.Registry.{Registers, work-Registers}
use fabrica_net.Work.Together.{Server, joined, new_server}

abbrev logged_in : Session
logged_in = record (default_session (pos 0)) { uid = pos 100 }

abbrev answers : Answers
answers = record {
  deadline = true;
  decoded = some (7 ∷ 8 ∷ [], 3);
  auth = λ p. some (p, logged_in);
  encoded = λ p. true;
  remote_addr = 127 ∷ [];
  on_connected = λ s. true;
  handled = λ s p. true;
  write_filter = λ p. some p;
}

-- `Run` ends with an error, as it does.
abbrev outside : Outside
outside = record {
  old_stops = λ w. true;
  connects = true;
  runs = false;
  stops = true;
  disconnects = true;
  others = λ s. s;
}

abbrev empty : State
empty = ([], new_worker_manager 4)

work-Registers_example :
    let r = Life.start answers (default_session (pos 0)) in
    Registers outside 1 16 empty
      (r.0, r.1.0)
      (worker empty.1 16)
      (work answers outside (pos 0) 1 16 empty).1
work-Registers_example =
    work-Registers answers outside (pos 0) 1 16 empty
      (new_worker_manager-IsSharded 4 (omega arith) (omega arith)) (λ s' v. v)

abbrev ann : Worker
ann = record { ref = 1; wid = 16; uid = pos 100; sid = pos 1; color = [] }

abbrev bob : Worker
bob = record { ref = 2; wid = 32; uid = pos 200; sid = pos 1; color = [] }

-- Both are served, and then bob alone.
abbrev with_ann : Server
with_ann = joined (new_server [] 4) ann

abbrev with_both : Server
with_both = joined with_ann bob
