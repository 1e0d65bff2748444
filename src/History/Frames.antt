-- ===== src/History/Frames.antt =====
-- The calls of `writev` of src/lib.rs that are in progress, in every history.
use node_serialport_rs.Prelude.{
  ℕ, zero, suc, ◌≤◌, ◌-◌, List, [], ◌∷◌, All, arith, length, length-append, leb, ◌&&◌, Option, none,
  some, Bool, if_cases,
}
use node_serialport_rs.Io.{ok, err}
use node_serialport_rs.Event.{JsResult}
use node_serialport_rs.Control.{chunk_size}
use node_serialport_rs.Port.{NativePort}
use node_serialport_rs.Port.Write.{with_capacity, add_segment}
use node_serialport_rs.Reactor.{Links}
use node_serialport_rs.History.{
  Move, reads, credits, writes, calls_writev, gives, finishes, requests, closes, works, Frame,
  World, start, port_of, called, gave, given_at, given, finish_at, finish_frame, act, history,
}

-- The room in a chunk, `CHUNK_SIZE - data.len()`, can be computed, and what has been counted is
-- within the limit on the elements.
pub record FrameFits (f : Frame) : Type 0 where
  pub bytes_fit : length f.bytes ≤ chunk_size
  pub few : f.remaining ≤ 1024

abbrev pub FramesFit : List Frame → Type 0
FramesFit = All FrameFits

module _ {T C : Type 0} where
  called-FramesFit :
      (p : NativePort T C) (id count : ℕ) (hint : Option ℕ) (allow : Option Bool)
      (frames : List Frame)
      → FramesFit frames
      → FramesFit (called p id count hint allow frames)
  called-FramesFit p id count hint allow frames h =
      if_cases FramesFit p.control.stopped _ _ (λ _. h)
        (λ _.
          if_cases FramesFit (leb (with_capacity hint) chunk_size && leb count 1024) _ _
            (λ e. (record { bytes_fit = omega arith; few = ground arith }, h)) (λ _. h))

  gave-FramesFit :
      (f : Frame) (n : ℕ) (frames : List Frame) (p : NativePort T C)
      (r : JsResult (Option (List ℕ)))
      → FrameFits f
      → n ≤ 1024
      → FramesFit frames
      → FramesFit (gave f n frames (add_segment f.bytes (p, r) (λ p' bytes. (p', ok bytes))))
  gave-FramesFit f n frames p (err e) g l h = h
  gave-FramesFit f n frames p (ok none) g l h = h
  gave-FramesFit f n frames p (ok (some b)) g l h =
      if_cases (λ (r : NativePort T C × JsResult (List ℕ)). FramesFit (gave f n frames r))
        (leb (length b) (chunk_size - length f.bytes)) _ _
        (λ e. (
          record {
            bytes_fit =
                let s : length b ≤ chunk_size - length f.bytes = ground arith in
                omega (arith, s, g.bytes_fit, length-append f.bytes b);
            few = l;
          },
          h,
        ))
        (λ _. h)

  given_at-FramesFit :
      (k : ℕ) (p : NativePort T C) (r : JsResult (Option (List ℕ))) (f : Frame)
      (frames : List Frame)
      → FrameFits f
      → k ≤ 1024
      → FramesFit frames
      → FramesFit (given_at k p r f frames)
  given_at-FramesFit zero p r f frames g l h = (g, h)
  given_at-FramesFit (suc n) p r f frames g l h = gave-FramesFit f n frames p r g (omega arith) h

  given-FramesFit :
      (p : NativePort T C) (r : JsResult (Option (List ℕ))) (frames : List Frame)
      → FramesFit frames
      → FramesFit (given p r frames)
  given-FramesFit p r [] h = tt
  given-FramesFit p r (f ∷ frames) h = given_at-FramesFit f.remaining p r f frames h.0 h.0.few h.1

module _ {T C K : Type 0} (links : Links T C K) where
  finish_at-FramesFit :
      (k : ℕ) (contended : Bool) (f : Frame) (frames : List Frame) (w : World T C K)
      → FramesFit frames
      → FramesFit w.frames
      → FramesFit (finish_at links k contended f frames w).frames
  finish_at-FramesFit zero contended f frames w g h = g
  finish_at-FramesFit (suc n) contended f frames w g h = h

  finish-FramesFit :
      (contended : Bool) (frames : List Frame) (w : World T C K)
      → FramesFit frames
      → FramesFit w.frames
      → FramesFit (finish_frame links contended frames w).frames
  finish-FramesFit contended [] w g h = h
  finish-FramesFit contended (f ∷ frames) w g h =
      finish_at-FramesFit f.remaining contended f frames w g.1 h

  act-FramesFit :
      (m : Move T) (w : World T C K) → FramesFit w.frames → FramesFit (act links m w).frames
  unfolding act
  act-FramesFit (reads id n) w h = h
  act-FramesFit (credits b n) w h = h
  act-FramesFit (writes id bytes allow contended) w h = h
  act-FramesFit (calls_writev id count hint allow) w h =
      called-FramesFit (port_of w.task) id count hint allow w.frames h
  act-FramesFit (gives r) w h = given-FramesFit (port_of w.task) r w.frames h
  act-FramesFit (finishes contended) w h = finish-FramesFit contended w.frames w h h
  act-FramesFit (requests id op value) w h = h
  act-FramesFit closes w h = h
  act-FramesFit (works choice) w h = h

  history-FramesFit :
      (ms : List (Move T)) (w : World T C K)
      → FramesFit w.frames
      → FramesFit (history links ms w).frames
  unfolding history
  history-FramesFit [] w h = h
  history-FramesFit (m ∷ ms) w h = history-FramesFit ms (act links m w) (act-FramesFit m w h)

  -- In every history from the start, each `writev` in progress, at whatever depth, holds at most a
  -- chunk of bytes, so that `CHUNK_SIZE - data.len()` does not underflow, and has at most 1024
  -- elements left.
  pub history_keeps_FramesFit :
      (ms : List (Move T)) (channel : C) (callback : K)
      → FramesFit (history links ms (start channel callback)).frames
  history_keeps_FramesFit ms channel callback = history-FramesFit ms (start channel callback) tt
