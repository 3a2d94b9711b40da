-- ===== src/Wireguard/Queue.antt =====
-- The outer socket's packets, from one call to the next.
use mathlib.Core.List.{append_assoc, append-nil}
use warp_socks.Prelude.{
  ◌≤◌, ◌<◌, ◌≡◌, refl, sym, ap, ◌∙◌, List, [], ◌∷◌, ◌++◌, Option, none, some, ◌&&◌, ◌==◌, ltb,
  length, length-append, All, All-append, arith, inl, inr, Bool-cases,
}
use warp_socks.Wireguard.{
  Outer, Packet, Reserved, SendResult, emit, enqueue, flush_queue, overwrite, patch_reserved,
  poll_network_flush, put_on_wire, send_error, send_behind, send_or_queue_network, send_now, sent,
  would_block,
}

-- the packet has the reserved bytes of the configuration, if it is a message of WireGuard
abbrev pub IsPatched : Reserved → Packet → Type 0
IsPatched r packet = patch_reserved r packet ≡ packet

-- From one state of the outer socket to a later one: the packets on the wire and behind them those of the
-- queue are the earlier ones, in the same order, with patched ones added at the end; what is on the wire
-- stays; and the queue keeps within its bound.
pub record Steps (r : Reserved) (o o' : Outer) : Type 0 where
  pub more : List Packet
  pub patched : All (IsPatched r) more
  pub in_order : o'.on_wire ++ o'.pending ≡ (o.on_wire ++ o.pending) ++ more
  pub newly_sent : List Packet
  pub stays : o'.on_wire ≡ o.on_wire ++ newly_sent
  pub short : length o.pending ≤ 256 → length o'.pending ≤ 256

pub Steps-refl : (r : Reserved) (o : Outer) → Steps r o o
Steps-refl r o = record {
  more = [];
  patched = tt;
  in_order = sym (append-nil (o.on_wire ++ o.pending));
  newly_sent = [];
  stays = sym (append-nil o.on_wire);
  short = λ h. h;
}

pub Steps-trans : (r : Reserved) (a b c : Outer) → Steps r a b → Steps r b c → Steps r a c
Steps-trans r a b c first second = record {
  more = first.more ++ second.more;
  patched = All-append (IsPatched r) first.more second.more first.patched second.patched;
  in_order =
      second.in_order
      ∙ ap (λ l. l ++ second.more) first.in_order
      ∙ append_assoc (a.on_wire ++ a.pending) first.more second.more;
  newly_sent = first.newly_sent ++ second.newly_sent;
  stays =
      second.stays
      ∙ ap (λ l. l ++ second.newly_sent) first.stays
      ∙ append_assoc a.on_wire first.newly_sent second.newly_sent;
  short = λ h. second.short (first.short h);
}

overwrite_twice :
    (r : Reserved) (packet : Packet) → overwrite r (overwrite r packet) ≡ overwrite r packet
unfolding overwrite
overwrite_twice r [] = refl
overwrite_twice r (a ∷ []) = refl
overwrite_twice r (a ∷ b ∷ []) = refl
overwrite_twice r (a ∷ b ∷ c ∷ []) = refl
overwrite_twice r (kind ∷ a ∷ b ∷ c ∷ rest) = elim (Bool-cases (ltb 0 kind && ltb kind 5)) [
  | inl message ↦ rw (message, overwrite, message) refl
  | inr other ↦ rw (other, overwrite, other) refl
]

patch_reserved-IsPatched : (r : Reserved) (packet : Packet) → IsPatched r (patch_reserved r packet)
unfolding patch_reserved
patch_reserved-IsPatched r packet = overwrite_twice r packet

enqueue-Steps :
    (r : Reserved) (packet : Packet) (o : Outer) → IsPatched r packet → Steps r o (enqueue packet o)
enqueue-Steps r packet o good = elim (Bool-cases (length o.pending == 256)) [
  | inl full ↦ rw full (record {
    more = [];
    patched = tt;
    in_order = sym (append-nil (o.on_wire ++ o.pending));
    newly_sent = [];
    stays = sym (append-nil o.on_wire);
    short = λ h. h;
  })
  | inr room ↦ rw room (record {
    more = packet ∷ [];
    patched = (good, tt);
    in_order = sym (append_assoc o.on_wire o.pending (packet ∷ []));
    newly_sent = [];
    stays = sym (append-nil o.on_wire);
    short = λ h. omega (
      arith,
      length-append o.pending (packet ∷ []),
      (let less : length o.pending < 256 = ground arith in less),
    );
  })
]

put_on_wire-Steps :
    (r : Reserved) (packet : Packet) (o : Outer)
    → o.pending ≡ []
    → IsPatched r packet
    → Steps r o (put_on_wire packet o)
put_on_wire-Steps r packet o empty good = record {
  more = packet ∷ [];
  patched = (good, tt);
  in_order = rw (empty, append-nil (o.on_wire ++ (packet ∷ [])), append-nil o.on_wire) refl;
  newly_sent = packet ∷ [];
  stays = refl;
  short = λ h. h;
}

send_now-Steps :
    (r : Reserved) (packet : Packet) (answer : SendResult) (o : Outer)
    → o.pending ≡ []
    → IsPatched r packet
    → Steps r o (send_now packet answer o).1
send_now-Steps r packet sent o empty good = put_on_wire-Steps r packet o empty good
send_now-Steps r packet would_block o empty good = enqueue-Steps r packet o good
send_now-Steps r packet send_error o empty good = Steps-refl r o

send_behind-Steps :
    (r : Reserved) (queue : List Packet) (packet : Packet) (answer : SendResult) (o : Outer)
    → o.pending ≡ queue
    → IsPatched r packet
    → Steps r o (send_behind queue packet answer o).1
send_behind-Steps r [] packet answer o empty good = send_now-Steps r packet answer o empty good
send_behind-Steps r (p ∷ ps) packet answer o waits good = enqueue-Steps r packet o good

pub emit-Steps :
    (r : Reserved) (packet : Option Packet) (answer : SendResult) (o : Outer)
    → Steps r o (emit r packet answer o).1
unfolding emit send_or_queue_network
emit-Steps r none answer o = Steps-refl r o
emit-Steps r (some packet) answer o =
    send_behind-Steps r o.pending (patch_reserved r packet) answer o refl
      (patch_reserved-IsPatched r packet)

-- the first packet of the queue goes out
sent-Steps :
    (r : Reserved) (p : Packet) (ps : List Packet) (o : Outer)
    → Steps r
        (record o { pending = p ∷ ps })
        (record o { on_wire = o.on_wire ++ (p ∷ []); pending = ps })
sent-Steps r p ps o = record {
  more = [];
  patched = tt;
  in_order = append_assoc o.on_wire (p ∷ []) ps ∙ sym (append-nil (o.on_wire ++ (p ∷ ps)));
  newly_sent = p ∷ [];
  stays = refl;
  short = λ h. omega (arith, h);
}

flush_queue-Steps :
    (r : Reserved) (queue : List Packet) (answers : List SendResult) (o : Outer)
    → Steps r (record o { pending = queue }) (flush_queue queue answers o).1
unfolding flush_queue
flush_queue-Steps r [] answers o = Steps-refl r (record o { pending = [] })
flush_queue-Steps r (p ∷ ps) [] o = Steps-refl r (record o { pending = p ∷ ps })
flush_queue-Steps r (p ∷ ps) (sent ∷ answers) o =
    Steps-trans r _ _ _ (sent-Steps r p ps o) (flush_queue-Steps r ps answers (put_on_wire p o))
flush_queue-Steps r (p ∷ ps) (would_block ∷ answers) o =
    Steps-refl r (record o { pending = p ∷ ps })
flush_queue-Steps r (p ∷ ps) (send_error ∷ answers) o = Steps-refl r (record o { pending = p ∷ ps })

pub poll_network_flush-Steps :
    (r : Reserved) (answers : List SendResult) (o : Outer)
    → Steps r o (poll_network_flush answers o).1
unfolding poll_network_flush
poll_network_flush-Steps r answers o = flush_queue-Steps r o.pending answers o
