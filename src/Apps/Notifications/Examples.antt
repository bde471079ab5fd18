-- ===== src/Apps/Notifications/Examples.antt =====
-- A subscription over a library that hides nothing, with codecs of bytes that are any numbers.
use fproto.Base.{ℕ, Option, none, some, List, [], ◌∷◌, ◌++◌, Bytes, codes, length, take, drop}
use fproto.Noise.{Session}
use fproto.Apps.Frames.{Json}
use fproto.Apps.Notifications.{Notification, Subscription, NotifyAck}

abbrev session : Session ℕ
session = record { send = 0; recv = 0 }

abbrev toy_notifications : Json Notification
toy_notifications = record {
  marshal = λ x. some x.channel;
  unmarshal = λ b.
      some
        (record { id = []; channel = b; title = []; body = []; priority = []; timestamp_ms = 0 });
}

-- Subscriptions to one channel.
abbrev packed : List Bytes → Bytes → Option Bytes
packed (c ∷ []) u = some (length c ∷ (c ++ u))
packed _ u = none

abbrev subscription_of : Bytes → Option Subscription
subscription_of [] = none
subscription_of (i ∷ r) = some (record { channels = take i r ∷ []; user_id = drop i r })

abbrev one_channel : Json Subscription
one_channel = record { marshal = λ s. packed s.channels s.user_id; unmarshal = subscription_of }

abbrev no_acks : Json NotifyAck
no_acks = record { marshal = λ a. none; unmarshal = λ b. none }

abbrev alerts : Subscription
alerts = record { channels = codes "alerts" ∷ []; user_id = [] }

abbrev alert : Notification
alert = record {
  id = [];
  channel = codes "alerts";
  title = [];
  body = [];
  priority = [];
  timestamp_ms = 0;
}
