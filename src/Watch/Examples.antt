-- ===== src/Watch/Examples.antt =====
-- Runs of the watchdog: a cell that converges, one that stalls, and an idle one.
use Prim.Native.String.{String}
use ndn_sim.Prelude.{ℕ, zero, suc, has, lookup, ◌≡◌, refl, List, [], ◌∷◌, some, Returns, arith}
use ndn_sim.Ledger.{Ledger, backlog, backlog_of, missing_of, acks_total}
use ndn_sim.Watch.{Verdict, watch, watch_from, look}
use ndn_sim.Watch.Quiet.{Means}
use ndn_sim.Watch.Verdicts.{acks_at, backlog_at, watch-Means}

abbrev bob : List String
bob = "bob" ∷ []

abbrev wedged : Ledger
wedged = record { published = (("alice", 1), 7 ∷ []) ∷ []; stored = []; reported = []; acks = 3 }

abbrev delivered : Ledger
delivered = record wedged { stored = (("bob", ("alice", 1)), 7 ∷ []) ∷ []; acks = 4 }

abbrev nothing : Ledger
nothing = record { published = []; stored = []; reported = []; acks = 0 }

-- Delivered by the second tick.
abbrev drains : ℕ → Ledger
drains zero = wedged
drains (suc zero) = wedged
drains (suc (suc n)) = delivered

stalls : watch (λ n. wedged) bob 20_000_000 1_000_000_000 100 ≡ some (Verdict.stalled 1 3)
unfolding watch watch_from look backlog backlog_of missing_of acks_total has lookup
stalls = refl

converges : watch drains bob 100_000_000 1_000_000_000 100 ≡ some Verdict.converged
unfolding watch watch_from look backlog backlog_of missing_of acks_total has lookup
converges = refl

-- No backlog and no ack at all is neither convergence nor a stall.
idles : watch (λ n. nothing) bob 20_000_000 50_000_000 100 ≡ some (Verdict.budget 0)
unfolding watch watch_from look backlog backlog_of missing_of acks_total has lookup
idles = refl

watch-Means_example :
    Returns
      (λ v.
        (n : ℕ) × Means
          (acks_at drains bob 100_000_000 1_000_000_000)
          (backlog_at drains bob 100_000_000 1_000_000_000)
          100_000_000
          1_000_000_000
          n
          v)
      (watch drains bob 100_000_000 1_000_000_000 100)
watch-Means_example =
    watch-Means drains bob 100_000_000 1_000_000_000 100 (omega arith) (omega arith)
