-- ===== src/Listeners/Accept.antt =====
-- pkg/controller/listeners.go: the backoff of the accept loop.
use hostlink.Prelude.{ℕ, ◌≤◌, ◌≡◌, refl, true, false, List, [], ◌∷◌, arith, All}
use hostlink.Listeners.{
  Accepted, tcp, other, closed, failed, accept, next_accept_backoff, initial_accept_backoff,
  maximum_accept_backoff,
}

abbrev pub IsBackoff : ℕ → Type 0
IsBackoff b = (initial_accept_backoff ≤ b) × (b ≤ maximum_accept_backoff)

next_accept_backoff-IsBackoff : (b : ℕ) → IsBackoff b → IsBackoff (next_accept_backoff b)
unfolding next_accept_backoff
next_accept_backoff-IsBackoff b h = ground arith

-- The connections that `Accept` returned, up to the event that ends the loop.
pub tcp_conns : List Accepted → List ℕ
tcp_conns [] = []
tcp_conns (tcp conn ∷ rest) = conn ∷ tcp_conns rest
tcp_conns (other conn ∷ rest) = tcp_conns rest
tcp_conns (closed ∷ rest) = []
tcp_conns (failed true ∷ rest) = tcp_conns rest
tcp_conns (failed false ∷ rest) = []

-- Every wait of an accept loop is between 100 ms and one second, and the loop hands each TCP
-- connection that is accepted before it ends to the handler, once and in order, whatever errors
-- come in between.
pub accept_lem :
    (script : List Accepted) (backoff : ℕ)
    → IsBackoff backoff
    → All IsBackoff (accept script backoff).waits
      × ((accept script backoff).handed ≡ tcp_conns script)
unfolding accept tcp_conns
accept_lem [] b h = (tt, refl)
accept_lem (tcp conn ∷ rest) b h = ground (arith, accept_lem rest initial_accept_backoff)
accept_lem (other conn ∷ rest) b h = ground (arith, accept_lem rest initial_accept_backoff)
accept_lem (closed ∷ rest) b h = (tt, refl)
accept_lem (failed true ∷ rest) b h =
    ground (arith, accept_lem rest (next_accept_backoff b), next_accept_backoff-IsBackoff b)
accept_lem (failed false ∷ rest) b h = ground arith
