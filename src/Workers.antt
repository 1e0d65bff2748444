-- ===== src/Workers.antt =====
-- src/workers.rs: the pool of I/O workers. Tokio's runtime and the threads are the parameter
-- `started`, the answer of `Worker::start`; a `Weak` can be upgraded while a lease holds its worker.
pub mod Bounds
pub mod Choice
mod Tests
use node_serialport_rs.Prelude.{
  ℕ, ◌+◌, ◌-◌, ◌==◌, leb, ltb, if◌then◌else◌, Bool, true, false, ◌||◌, Option, none, some, List, [],
  ◌∷◌, ◌++◌, map, length,
}
use node_serialport_rs.Io.{ErrorKind, IoError, IoResult, io_error, ok, err}
use node_serialport_rs.Control.{fetch_add_one, fetch_sub_one}

abbrev pub max_workers : ℕ
max_workers = 4

-- `LIMIT`, from what `available_parallelism` answers.
abbrev pub limit_of : Option ℕ → ℕ
limit_of none = 1
limit_of (some n) = if ltb n 1 then 1 else if ltb max_workers n then max_workers else n

-- A worker: its address, its `ports`, and how many leases hold it.
pub record Worker : Type 0 where
  pub id : ℕ
  pub ports : ℕ
  pub strong : ℕ

-- `WORKERS`
pub record Pool : Type 0 where
  pub workers : List Worker
  pub poisoned : Bool

abbrev pub empty_pool : Pool
empty_pool = record { workers = []; poisoned = false }

-- How `acquire` ends. `panicked` is an index beyond the array `active`.
pub data Acquired : Type 0 where
  granted : ℕ → Acquired
  failed : IoError → Acquired
  panicked : Acquired

abbrev pub kept : Worker → Option (List Worker) → Option (List Worker)
kept w none = none
kept w (some ws) = some (w ∷ ws)

-- The closure of `retain`, over the pool: the workers that can be upgraded, which are both what
-- stays in the pool and what `active` is filled with; `none` where an index is out of bounds.
unfoldable pub upgraded : ℕ → List Worker → Option (List Worker)
upgraded active_count [] = some []
upgraded active_count (w ∷ ws) =
    let skipped = upgraded active_count ws in
    let taken = upgraded (active_count + 1) ws in
    if w.strong == 0 then skipped else if ltb active_count max_workers then kept w taken else none

-- `min_by_key` over the ports: the first of the least.
unfoldable pub least : Worker → List Worker → Worker
least w [] = w
least w (v ∷ vs) = least (if ltb v.ports w.ports then v else w) vs

abbrev pub least_busy : List Worker → Option Worker
least_busy [] = none
least_busy (w ∷ ws) = some (least w ws)

-- `take_if`
abbrev pub reusable : ℕ → List Worker → Option Worker → Option Worker
reusable limit active none = none
reusable limit active (some w) = if w.ports == 0 || leb limit (length active) then some w else none

-- The worker of a lease that was just made.
abbrev pub leased : ℕ → Worker → Worker
leased id w =
    if w.id == id then record w { ports = fetch_add_one w.ports; strong = w.strong + 1 } else w

-- `Worker::start`, with the lease that follows.
abbrev pub push_started : List Worker → IoResult ℕ → Pool × Acquired
push_started active (err e) = (record { workers = active; poisoned = false }, failed e)
push_started active (ok id) = (
  record { workers = active ++ (record { id = id; ports = 1; strong = 1 } ∷ []); poisoned = false },
  granted id,
)

abbrev pub grant : List Worker → IoResult ℕ → Option Worker → Pool × Acquired
grant active started none = push_started active started
grant active started (some w) =
    (record { workers = map (leased w.id) active; poisoned = false }, granted w.id)

abbrev pub select_worker : ℕ → Pool → IoResult ℕ → Option (List Worker) → Pool × Acquired
select_worker limit p started none = (record p { poisoned = true }, panicked)
select_worker limit p started (some active) =
    grant active started (reusable limit active (least_busy active))

-- `acquire`; it holds the pool's mutex throughout.
unfoldable pub acquire : ℕ → IoResult ℕ → Pool → Pool × Acquired
acquire limit started p =
    if p.poisoned
    then (p, failed (io_error ErrorKind.other "I/O worker pool poisoned"))
    else select_worker limit p started (upgraded 0 p.workers)

-- `Drop for Lease`: the count first, then the `Arc`.
abbrev pub uncounted : ℕ → Worker → Worker
uncounted id w = if w.id == id then record w { ports = fetch_sub_one w.ports } else w

abbrev pub unheld : ℕ → Worker → Worker
unheld id w = if w.id == id then record w { strong = w.strong - 1 } else w

unfoldable pub drop_count : ℕ → Pool → Pool
drop_count id p = record p { workers = map (uncounted id) p.workers }

unfoldable pub drop_handle : ℕ → Pool → Pool
drop_handle id p = record p { workers = map (unheld id) p.workers }

-- What can happen to the pool.
pub data Use : Type 0 where
  acquires : IoResult ℕ → Use
  drops_count : ℕ → Use
  drops_handle : ℕ → Use

unfoldable pub used : ℕ → Use → Pool → Pool
unfolding acquire drop_count drop_handle
used limit (acquires started) p = (acquire limit started p).0
used limit (drops_count id) p = drop_count id p
used limit (drops_handle id) p = drop_handle id p

unfoldable pub uses : ℕ → List Use → Pool → Pool
unfolding used
uses limit [] p = p
uses limit (u ∷ us) p = uses limit us (used limit u p)
