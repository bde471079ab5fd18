-- ===== src/Apps/Notifications/Subscriptions.antt =====
-- A subscription and the notifications after it (examples/notifications/server.go).
use fproto.Base.{
  ℕ, Bool, true, false, Option, none, some, List, [], ◌∷◌, Bytes, Result, ok, err, lookup,
}
use fproto.Noise
use fproto.Noise.{Noise, Session, NoiseError, decrypt, or_error, decrypt_failed}
use fproto.Apps.Frames.{Json}
use fproto.Apps.Notifications.{
  Notification, Subscription, NotifyAck, Subscriber, NotifyHub, broadcast, sent_to, Event,
  connected, read, read_failed, posted, step, opened, read_by, decoded_post, stamped,
  add_subscriber, remove_subscriber,
}
use fproto.Apps.Notifications.Broadcasts.{
  IsDistinct, assign-IsDistinct, unassign-IsDistinct, deliver-IsDistinct,
}

module _ {Handshake Cipher : Type 0} (n : Noise Handshake Cipher) where
  -- What the client opens of what it is sent.
  abbrev pub client_opens : Cipher → Option Bytes → Option Bytes
  client_opens c none = none
  client_opens c (some ct) = (n.unseal ct c).0

  -- The subscriber that a subscription leaves.
  abbrev pub with_subscription : Bytes → Subscription → Subscriber Cipher → Subscriber Cipher
  with_subscription ct s sub = record {
    session = record { send = sub.session.send; recv = (n.unseal ct sub.session.recv).1 };
    channels = s.channels;
    user_id = s.user_id;
  }

module _ {Handshake Cipher : Type 0} (n : Noise Handshake Cipher)
    (notifications : Json Notification) (subscriptions : Json Subscription)
    (acks : Json NotifyAck) where
  sent_to-IsDistinct :
      (channel : Bytes) (writes : Bytes → Bool) (o : Option Bytes) (h : NotifyHub Cipher)
      → IsDistinct h
      → IsDistinct (sent_to n notifications subscriptions acks channel writes o h).2
  sent_to-IsDistinct channel writes none h d = d
  sent_to-IsDistinct channel writes (some msg) h d = deliver-IsDistinct n channel msg writes h d

  decoded_post-IsDistinct :
      (o : Option Notification) (now : ℕ) (writes : Bytes → Bool) (h : NotifyHub Cipher)
      → IsDistinct h
      → IsDistinct (decoded_post n notifications subscriptions acks o now writes h).2
  unfolding broadcast
  decoded_post-IsDistinct none now writes h d = d
  decoded_post-IsDistinct (some x) now writes h d =
      sent_to-IsDistinct (stamped now x).channel writes _ h d

  read_by-IsDistinct :
      (id ct : Bytes) (o : Option (Subscriber Cipher)) (h : NotifyHub Cipher)
      → IsDistinct h
      → IsDistinct (read_by n notifications subscriptions acks id ct o h)
  unfolding remove_subscriber
  read_by-IsDistinct id ct none h d = d
  read_by-IsDistinct id ct (some sub) h d = of_result (Noise.decrypt n ct sub.session)
    where
      of_result :
          (r : Result NoiseError Bytes × Session Cipher)
          → IsDistinct (opened n notifications subscriptions acks id sub r h)
      of_result (err e, s) = unassign-IsDistinct id h d
      of_result (ok pt, s) = assign-IsDistinct id _ h d

  step-IsDistinct :
      (e : Event n notifications subscriptions acks) (h : NotifyHub Cipher)
      → IsDistinct h
      → IsDistinct (step n notifications subscriptions acks e h).2
  unfolding step add_subscriber remove_subscriber
  step-IsDistinct (connected id s) h d = assign-IsDistinct id _ h d
  step-IsDistinct (read id ct) h d = read_by-IsDistinct id ct (lookup id h) h d
  step-IsDistinct (read_failed id) h d = unassign-IsDistinct id h d
  step-IsDistinct (posted true decoded now writes) h d =
      decoded_post-IsDistinct decoded now writes h d
  step-IsDistinct (posted false decoded now writes) h d = d

  -- The hub after some events.
  unfoldable pub run :
      List (Event n notifications subscriptions acks) → NotifyHub Cipher → NotifyHub Cipher
  run [] h = h
  run (e ∷ es) h = run es (step n notifications subscriptions acks e h).2

  pub run-IsDistinct :
      (es : List (Event n notifications subscriptions acks)) (h : NotifyHub Cipher)
      → IsDistinct h
      → IsDistinct (run es h)
  unfolding run
  run-IsDistinct [] h d = d
  run-IsDistinct (e ∷ es) h d =
      run-IsDistinct es (step n notifications subscriptions acks e h).2 (step-IsDistinct e h d)
