-- ===== src/RequestHandler/Cleanup.antt =====
-- cleanup and cleanup_check of SNBRequestHandlerModel.hxx, run by one thread (`Protocol` has the
-- threads).
use snbmodules.Common.{
  ℕ, zero, suc, ◌+◌, ◌%◌, Bool, true, false, Option, some, List, [], ◌∷◌, ltb, if◌then◌else◌, ◌>>=◌,
}
use snbmodules.RequestHandler.Buffer.{LatencyBuffer, Element}
use snbmodules.RequestHandler.Pieces.{count, erase}
use snbmodules.RequestHandler.State.{Handler, incr}

abbrev pub is_empty : List ℕ → Bool
is_empty [] = true
is_empty (t ∷ ts) = false

module _ (lb : LatencyBuffer) where
  -- The while loop of cleanup: the buffer, the pop list and the number of elements popped. The
  -- fuel is the occupancy, which every round lowers.
  unfoldable pub pop_loop : ℕ → lb.Buffer → List ℕ → ℕ → Option (lb.Buffer × List ℕ × ℕ)
  pop_loop zero b pops popped = some (b, pops, popped)
  pop_loop (suc fuel) b pops popped =
      let round = λ (e : Element).
        let rest = pop_loop fuel (lb.pop 1 b) (erase e.timestamp pops) (suc popped) in
        if count e.timestamp pops then rest else some (b, pops, popped) in
      if is_empty pops
      then some (b, pops, popped)
      else if ltb 1 (lb.occupancy b)
      then lb.front b >>= round
      else some (b, pops, popped)

module _ {lb : LatencyBuffer} where
  -- After the loop: the counters and the oldest timestamp.
  abbrev pub settled : Handler lb → lb.Buffer → List ℕ → ℕ → Element → Handler lb
  settled h b pops popped e = record h {
    buffer = b;
    pop_list = pops;
    occupancy = lb.occupancy b;
    errors_until = e.timestamp;
    oldest_timestamp = e.timestamp;
    counters = record (h.counters) {
      pop_reqs = incr h.counters.pop_reqs;
      pops_count = (h.counters.pops_count + popped) % 4294967296;
      num_buffer_cleanups = incr h.counters.num_buffer_cleanups;
    };
  }

  -- The front of an empty buffer is dereferenced here too.
  unfoldable pub settle : Handler lb → lb.Buffer × List ℕ × ℕ → Option (Handler lb)
  settle h (b, pops, popped) = do e ← lb.front b; some (settled h b pops popped e)

  unfoldable pub cleanup : Handler lb → Option (Handler lb)
  unfolding pop_loop settle
  cleanup h = do r ← pop_loop lb (lb.occupancy h.buffer) h.buffer h.pop_list 0; settle h r

  unfoldable pub cleanup_check : Handler lb → Option (Handler lb)
  cleanup_check h = let run = cleanup h in if is_empty h.pop_list then some h else run
