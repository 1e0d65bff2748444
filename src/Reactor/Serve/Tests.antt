-- ===== src/Reactor/Serve/Tests.antt =====
-- An instance of the theorem on the inner loop of src/reactor.rs.
use node_serialport_rs.Prelude.{refl, [], ◌∷◌, none}
use node_serialport_rs.Command.{write, get, Command}
use node_serialport_rs.Port.{fresh_control}
use node_serialport_rs.Reactor.{System, initial}
use node_serialport_rs.Reactor.Serve.{serve}
use node_serialport_rs.Reactor.Serve.Answers.{Answers, serve-Answers}
use node_serialport_rs.Wire.{Wire}
use node_serialport_rs.Wire.Desk.{Queue, Received, desk, as_received, list_sink_lawful}

abbrev finished_write : Command
finished_write = record { id = 5; operation = write (7 ∷ 8 ∷ []) }

abbrev asks : Command
asks = record { id = 6; operation = get }

abbrev state : System Wire Queue Received
state = record {
  control = record fresh_control { pending_ops = 2 };
  channel = [];
  callback = [];
  wakes = 0;
  locals = record initial { commands = finished_write ∷ asks ∷ []; written = 2 };
}

serve-Answers_example :
    Answers desk as_received list_sink_lawful finished_write
      (asks ∷ [])
      state
      (serve desk state none)
serve-Answers_example =
    serve-Answers desk as_received list_sink_lawful finished_write (asks ∷ []) state none refl
