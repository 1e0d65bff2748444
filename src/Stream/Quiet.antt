-- ===== src/Stream/Quiet.antt =====
-- The control operations of src/reactor.rs move no bytes.
use node_serialport_rs.Prelude.{ℕ, ◌≡◌, refl, ◌∙◌, Bool, true, false, if◌then◌else◌, List, arith}
use node_serialport_rs.Io.{IoResult, ok, err}
use node_serialport_rs.Command.{Operation, update, set_lines, get, get_baud_rate, flush, Command}
use node_serialport_rs.Serial.{Serial, PortCall, after}
use node_serialport_rs.Serial.Laws.{IsSerial}
use node_serialport_rs.Platform.{set_baud_rate, baud_rate}
use node_serialport_rs.Reactor.Operation.{has_flag, perform, operation}

module _ {T : Type 0} (sent : T → List ℕ) where
  after-sent :
      {A B : Type 0} (r : T × IoResult A) (f : A → PortCall T B) (x : List ℕ)
      → sent r.0 ≡ x
      → ((a : A) (p : T) → sent p ≡ x → sent (f a p).0 ≡ x)
      → sent (after r f).0 ≡ x
  after-sent (p, ok a) f x h k = k a p h
  after-sent (p, err e) f x h k = h

module _ {T : Type 0} (serial : Serial T) {received sent : T → List ℕ}
    (law : IsSerial serial received sent) where
  lines-sent :
      (b : Bool) (p : T) → sent ((if b then serial.set_break else serial.clear_break) p).0 ≡ sent p
  lines-sent true p = (law.set_break_quiet p).1
  lines-sent false p = (law.clear_break_quiet p).1

  set_baud_rate-sent : (n : ℕ) (p : T) → sent (set_baud_rate serial n p).0 ≡ sent p
  unfolding set_baud_rate
  set_baud_rate-sent n p = ground (arith, (law.set_baud_rate_quiet n p).1)

  -- No control operation hands the driver bytes.
  perform-sent : (id : ℕ) (op : Operation) (p : T) → sent (perform serial id op p).0 ≡ sent p
  unfolding perform baud_rate
  perform-sent id (update n) p =
      after-sent sent (set_baud_rate serial n p) _ (sent p) (set_baud_rate-sent n p) (λ a q e. e)
  perform-sent id get_baud_rate p =
      after-sent sent (serial.baud_rate p) _ (sent p) (law.baud_rate_quiet p).1 (λ a q e. e)
  perform-sent id (set_lines flags) p =
      after-sent sent (serial.write_data_terminal_ready (has_flag flags 1) p) _ (sent p)
        (law.dtr_quiet (has_flag flags 1) p).1
        (λ a q e.
          after-sent sent (serial.write_request_to_send (has_flag flags 2) q) _ (sent p)
            ((law.rts_quiet (has_flag flags 2) q).1 ∙ e)
            (λ a' q' e'.
              after-sent sent
                ((if has_flag flags 4 then serial.set_break else serial.clear_break) q') _ (sent p)
                (lines-sent (has_flag flags 4) q' ∙ e') (λ a'' q'' e''. e'')))
  perform-sent id get p =
      after-sent sent (serial.read_clear_to_send p) _ (sent p) (law.cts_quiet p).1 (λ a q e.
        after-sent sent (serial.read_data_set_ready q) _ (sent p) ((law.dsr_quiet q).1 ∙ e)
          (λ a' q' e'.
            after-sent sent (serial.read_carrier_detect q') _ (sent p) ((law.dcd_quiet q').1 ∙ e')
              (λ a'' q'' e''. e'')))
  perform-sent id flush p =
      after-sent sent (serial.clear_all p) _ (sent p) (law.clear_quiet p).1 (λ a q e. e)
  perform-sent id _ p = refl

  pub operation-sent : (c : Command) (p : T) → sent (operation serial c p).0 ≡ sent p
  unfolding operation
  operation-sent c p = perform-sent c.id c.operation p
