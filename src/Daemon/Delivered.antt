-- ===== src/Daemon/Delivered.antt =====
-- The answers that a server (src/ipc.rs) has sent to a client, and whether it still waits.
use ampered.Prelude.{
  ℕ, ◌+◌, ◌≡◌, refl, arith, Bool, true, false, List, [], ◌∷◌, ◌==◌, count, count-append,
}
use ampered.Ipc.{RequestId, Response}
use ampered.Ipc.Server.{Server, waits, forget, reply}

abbrev is_to : RequestId → RequestId × Response → Bool
is_to id (i, response) = i == id

-- How many answers went to a request.
unfoldable pub sent_to : RequestId → Server → ℕ
sent_to id s = count (is_to id) s.delivered

forget-gone : (id : RequestId) (ids : List RequestId) → waits id (forget id ids) ≡ false
unfolding waits forget
forget-gone id [] = refl
forget-gone id (i ∷ rest) = ground (arith, forget-gone id rest)

forget-other :
    (id other : RequestId) (ids : List RequestId)
    → (other == id) ≡ false
    → waits other (forget id ids) ≡ waits other ids
unfolding waits forget
forget-other id other [] h = refl
forget-other id other (i ∷ rest) h = ground (arith, forget-other id other rest h)

pub reply-mine :
    (id : RequestId) (response : Response) (s : Server)
    → waits id s.pending ≡ true
    → (waits id (reply id response s).pending ≡ false)
      × (sent_to id (reply id response s) ≡ sent_to id s + 1)
unfolding reply sent_to
reply-mine id response s h =
    ground
      (arith, forget-gone id s.pending, count-append (is_to id) s.delivered ((id, response) ∷ []))

pub reply-other :
    (id other : RequestId) (response : Response) (s : Server)
    → (other == id) ≡ false
    → (waits other (reply id response s).pending ≡ waits other s.pending)
      × (sent_to other (reply id response s) ≡ sent_to other s)
unfolding reply sent_to
reply-other id other response s h = ground (
  arith,
  forget-other id other s.pending h,
  count-append (is_to other) s.delivered ((id, response) ∷ []),
)
