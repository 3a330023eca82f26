-- ===== src/Core/Broadcast.antt =====
-- core/broadcast.go: the broadcast of the packets of the key generation, each echoed once to the other
-- nodes. What a bundle holds and how it is hashed, signed and encoded is a parameter. The order of
-- rand.Perm makes no difference, since each sender has its own queue.
pub mod Once
use drand.Prelude.{
  ℕ, ◌+◌, Bool, true, false, not, Option, none, some, List, [], ◌∷◌, ◌++◌, map, filter, length, ltb,
  if◌then◌else◌, Bytes, bytes_equal,
}

pub data Kind : Type 0 where
  deal response justification : Kind

-- maxQueueSize
abbrev pub max_queue_size : ℕ
max_queue_size = 1000

-- senderQueueSize
unfoldable pub sender_queue_size : ℕ → ℕ
sender_queue_size nodes = if ltb max_queue_size nodes then max_queue_size else nodes

-- arraySet.exists
unfoldable pub exists : List Bytes → Bytes → Bool
exists [] hash = false
exists (h ∷ hashes) hash = if bytes_equal h hash then true else exists hashes hash

-- arraySet.put
unfoldable pub put_hash : List Bytes → Bytes → List Bytes
unfolding exists
put_hash hashes hash = if exists hashes hash then hashes else hashes ++ hash ∷ []

module _ (Bundle : Type 0) where
  pub record Packet : Type 0 where
    pub kind : Kind
    pub bundle : Bundle

  -- A destination, its channel, and what the client was told to send it
  pub record Sender : Type 0 where
    pub to : Bytes
    pub new_ch : List Packet
    pub sent : List Packet

  pub record EchoBroadcast : Type 0 where
    pub hashes : List Bytes
    pub queue_size : ℕ
    pub senders : List Sender
    pub deal_ch : List Bundle
    pub resp_ch : List Bundle
    pub just_ch : List Bundle

  unfoldable pub new_sender : Bytes → Sender
  new_sender to = record { to = to; new_ch = []; sent = [] }

  -- newEchoBroadcast and newDispatcher
  unfoldable pub new_echo_broadcast : Bytes → List Bytes → EchoBroadcast
  unfolding new_sender sender_queue_size
  new_echo_broadcast own to = record {
    hashes = [];
    queue_size = sender_queue_size (length to);
    senders = map new_sender (filter (λ address. not (bytes_equal address own)) to);
    deal_ch = [];
    resp_ch = [];
    just_ch = [];
  }

  -- sender.sendPacket
  unfoldable pub send_packet : ℕ → Packet → Sender → Sender
  send_packet queue_size p s =
      if ltb (length s.new_ch) queue_size then record s { new_ch = s.new_ch ++ p ∷ [] } else s

  -- sender.sendDirect
  unfoldable pub send_direct : Packet → Sender → Sender
  send_direct p s = record s { sent = s.sent ++ p ∷ [] }

  -- sender.run, for one packet
  unfoldable pub run_sender : Sender → List Packet → Sender
  unfolding send_direct
  run_sender s [] = s
  run_sender s (p ∷ rest) = send_direct p (record s { new_ch = rest })

  -- passToApplication
  unfoldable pub pass : EchoBroadcast → Kind → Bundle → EchoBroadcast
  pass b deal x = record b { deal_ch = b.deal_ch ++ x ∷ [] }
  pass b response x = record b { resp_ch = b.resp_ch ++ x ∷ [] }
  pass b justification x = record b { just_ch = b.just_ch ++ x ∷ [] }

  unfoldable pub pass_to_application : EchoBroadcast → Packet → EchoBroadcast
  unfolding pass
  pass_to_application b p = pass b p.kind p.bundle

  -- sendout, with dispatcher.broadcastDirect or dispatcher.broadcast; the three kinds all encode
  unfoldable pub sendout : EchoBroadcast → Bytes → Packet → Bool → EchoBroadcast
  unfolding send_packet send_direct put_hash
  sendout b h p bypass = record b {
    hashes = put_hash b.hashes h;
    senders =
        if bypass
        then map (send_direct p) b.senders
        else map (send_packet b.queue_size p) b.senders;
  }

  module _ (hash_of : Packet → Bytes) (verif : Packet → Bool) where
    -- PushDeals, PushResponses and PushJustifications
    unfoldable pub push : EchoBroadcast → Packet → EchoBroadcast
    unfolding sendout pass_to_application
    push b p = sendout (pass_to_application b p) (hash_of p) p true

    -- BroadcastDKG, on a decoded packet; true for a nil error
    unfoldable pub receive_packet : EchoBroadcast → Packet → EchoBroadcast × Bool
    unfolding sendout pass_to_application exists
    receive_packet b p =
        if exists b.hashes (hash_of p)
        then (b, true)
        else if not (verif p)
        then (b, false)
        else (pass_to_application (sendout b (hash_of p) p false) p, true)

    -- BroadcastDKG; none for a packet that does not decode
    unfoldable pub broadcast_dkg : EchoBroadcast → Option Packet → EchoBroadcast × Bool
    unfolding receive_packet
    broadcast_dkg b none = (b, false)
    broadcast_dkg b (some p) = receive_packet b p
