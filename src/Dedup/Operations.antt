-- ===== src/Dedup/Operations.antt =====
-- dedup.py: the calls of `DedupState` in sequence.
use heimdall_gateway.Prelude.{ℕ, String, Bool, true, not, List, [], ◌∷◌, ◌==◌, nat_key, string_key}
use heimdall_gateway.Dedup.{
  DedupState, get_or_create_inflight, complete_ok, complete_err, get_cached, put_cached,
  evict_expired, mark_disconnected, forget,
}

pub data Operation (R E : Type 0) : Type 0 where
  request : ℕ → String → Operation R E
  ok : String → R → Operation R E
  err : String → E → Operation R E
  look : ℕ → String → Operation R E
  store : ℕ → String → R → ℕ → Operation R E
  evict : ℕ → Operation R E
  disconnect : ℕ → String → ℕ → Operation R E
  discard : ℕ → String → ℕ → Operation R E

module _ {R E : Type 0} where
  unfoldable pub apply : Operation R E → DedupState R E → DedupState R E
  apply (request now key) s = (get_or_create_inflight now key s).0
  apply (ok key result) s = complete_ok key result s
  apply (err key exc) s = complete_err key exc s
  apply (look now key) s = (get_cached now key s).0
  apply (store now key result ttl) s = (put_cached now key result ttl s).0
  apply (evict now) s = (evict_expired now s).0
  apply (disconnect now key grace) s = (mark_disconnected now key grace s).0
  apply (discard now key grace) s = forget now key grace s

  unfoldable pub apply_all : List (Operation R E) → DedupState R E → DedupState R E
  unfolding apply
  apply_all [] s = s
  apply_all (operation ∷ operations) s = apply_all operations (apply operation s)

  -- whether the call neither completes, stores, forgets nor disconnects the request `key`
  unfoldable pub leaves_running : String → Operation R E → Bool
  leaves_running key (request now j) = true
  leaves_running key (ok j result) = not (j == key)
  leaves_running key (err j exc) = not (j == key)
  leaves_running key (look now j) = true
  leaves_running key (store now j result ttl) = not (j == key)
  leaves_running key (evict now) = true
  leaves_running key (disconnect now j grace) = not (j == key)
  leaves_running key (discard now j grace) = not (j == key)
