-- ===== src/AgentLink/Chunks.antt =====
-- pkg/agent/fs.go, `registerInbound`, `routeChunk` and `deregisterInbound`: the chunks of an upload
-- reach its handler in order.
use mathlib.Core.List.{append_assoc, append-nil}
use hostlink.Prelude.{
  ℕ, ◌+◌, ◌-◌, ◌≤◌, ◌<◌, ◌≡◌, refl, sym, ap, ◌∙◌, true, false, Option, none, some, List, [], ◌∷◌,
  ◌++◌, ◌==◌, ltb, length, length-append, Text, arith, nat_comparable, text_comparable,
  Option-cases, inl, inr, ==_refl,
}
use hostlink.Map.{Map, get, put}
use hostlink.Map.Laws.{get-put}
use hostlink.AgentLink.{
  UploadChunk, InboundStream, Inbound, register_inbound, blocked, routed, offer, route_chunk,
  deregister_inbound, close_done, inbound_capacity,
}

-- The receive loop routes the chunks of one request, one after the other; none where it waits.
unfoldable pub route_all : Text → List UploadChunk → Inbound → Option Inbound
unfolding route_chunk
route_all request_id [] a = some a
route_all request_id (c ∷ cs) a = elim (route_chunk true request_id c a) [
  | blocked ↦ none
  | routed b ↦ route_all request_id cs b
]

-- A stream that is registered and not done takes a chunk if there is room for it.
route_chunk-some :
    (a : Inbound) (request_id : Text) (g : ℕ) (s : InboundStream) (c : UploadChunk)
    → get a.inbound request_id ≡ some g
    → get a.streams g ≡ some s
    → length s.sent < s.taken + inbound_capacity
    → s.taken ≤ length s.sent
    → route_chunk true request_id c a
      ≡ routed (record a { streams = put a.streams g (record s { sent = s.sent ++ c ∷ [] }) })
unfolding route_chunk offer
route_chunk-some a request_id g s c h k room behind =
    let r : ltb (length s.sent - s.taken) inbound_capacity ≡ true = ground arith in
    rw (h, k, r, route_chunk, offer) refl

route_all_step :
    (c : UploadChunk) (cs : List UploadChunk) (a b : Inbound) (request_id : Text)
    → route_chunk true request_id c a ≡ routed b
    → route_all request_id (c ∷ cs) a ≡ route_all request_id cs b
unfolding route_all
route_all_step c cs a b request_id h = rw (h, route_all) refl

-- As many chunks as there is room for are buffered behind what was sent, in order.
route_all_lem :
    (cs : List UploadChunk) (a : Inbound) (request_id : Text) (g : ℕ) (s : InboundStream)
    → get a.inbound request_id ≡ some g
    → get a.streams g ≡ some s
    → length s.sent + length cs ≤ s.taken + inbound_capacity
    → s.taken ≤ length s.sent
    → (b : Inbound) × (route_all request_id cs a ≡ some b)
      × (get b.streams g ≡ some (record s { sent = s.sent ++ cs }))
      × (b.inbound ≡ a.inbound)
unfolding route_all
route_all_lem [] a request_id g s h k room behind =
    (a, refl, k ∙ ap (λ x. some (record s { sent = x })) (sym (append-nil s.sent)), refl)
route_all_lem (c ∷ cs) a request_id g s h k room behind =
    let s' : InboundStream = record s { sent = s.sent ++ c ∷ [] } in
    let a' : Inbound = record a { streams = put a.streams g s' } in
    let one = route_chunk-some a request_id g s c h k (omega arith) behind in
    let (b, e, sent, same) =
      route_all_lem cs a' request_id g s' h (ground (arith, get-put a.streams g g s', ==_refl g))
        (omega (arith, length-append s.sent (c ∷ [])))
        (omega (arith, length-append s.sent (c ∷ []))) in
    (
      b,
      route_all_step c cs a a' request_id one ∙ e,
      sent ∙ ap (λ x. some (record s { sent = x })) (append_assoc s.sent (c ∷ []) cs),
      same,
    )

close_done_elsewhere :
    (streams : Map ℕ InboundStream) (g old : ℕ)
    → (old == g) ≡ false
    → get (close_done streams old) g ≡ get streams g
unfolding close_done
close_done_elsewhere streams g old other = elim (Option-cases (get streams old)) [
  | inl none_there ↦ rw (none_there, close_done) refl
  | inr (s, there) ↦
      rw (there, close_done) (ground (arith, get-put streams old g (record s { done = true })))
]

-- The chunks that follow an opening request are buffered for its handler, all of them and in order, as
-- long as the channel has room, and the end of an earlier upload with the same request id takes
-- nothing from it.
pub route_chunk_lem :
    (cs : List UploadChunk) (a : Inbound) (request_id : Text) (old : ℕ)
    → length cs ≤ inbound_capacity
    → (a.made == old) ≡ false
    → let opened = deregister_inbound request_id old (register_inbound request_id a) in
      (b : Inbound) × (route_all request_id cs opened ≡ some b)
      × (get b.streams a.made ≡ some (record { sent = cs; taken = 0; done = false }))
      × (get b.inbound request_id ≡ some a.made)
unfolding register_inbound deregister_inbound
route_chunk_lem cs a request_id old room other =
    let fresh : InboundStream = record { sent = []; taken = 0; done = false } in
    let opened = deregister_inbound request_id old (register_inbound request_id a) in
    let known : get opened.inbound request_id ≡ some a.made =
      ground (arith, get-put a.inbound request_id request_id a.made, ==_refl request_id) in
    let empty : get opened.streams a.made ≡ some fresh =
      close_done_elsewhere (put a.streams a.made fresh) a.made old (ground arith)
      ∙ ground (arith, get-put a.streams a.made a.made fresh, ==_refl a.made) in
    let (b, e, sent, same) =
      route_all_lem cs opened request_id a.made fresh known empty (omega arith) (omega arith) in
    (b, e, sent, ap (λ m. get m request_id) same ∙ known)
