-- ===== src/Transport/Manager/Examples.antt =====
-- The theorem on broadcasts at two transports, each the list of what it has sent; the second does
-- not support broadcasts.
use emq.Base.{ltb, ◌≡◌, true, any, List, [], ◌∷◌, ◌++◌, Bytes, length, bytes_key, ◌==◌}
use emq.Base.Assoc.{lookup}
use mathlib.Core.Option
use emq.Transport.Manager.{Transport, Manager, udp, broadcast}
use emq.Transport.Manager.Broadcast.{reports, reached, broadcast_lem}

abbrev boxes : Transport (List Bytes)
boxes = record {
  is_active = λ x. ltb 0 (length x);
  supports_broadcast = λ x. length x == 1;
  init = λ cfg x. (true, x);
  shutdown = λ x. [];
  set_recv_callback = λ x. x;
  send = λ to b x. (true, b ∷ x);
  sendv = λ to slices x. (true, slices ++ x);
  broadcast = λ b x. (true, b ∷ x);
  local_endpoints = λ x. [];
}

abbrev two_boxes : Manager (List Bytes)
two_boxes = record {
  transports = (udp, [] ∷ []) ∷ (9 ∷ [], [] ∷ [] ∷ []) ∷ [];
  has_callback = true;
}

broadcast_lem_example :
    ((broadcast boxes (5 ∷ []) two_boxes).0 ≡ any (reports boxes (5 ∷ [])) two_boxes.transports)
    × (lookup udp (broadcast boxes (5 ∷ []) two_boxes).1.transports
        ≡ Option.map (reached boxes (5 ∷ [])) (lookup udp two_boxes.transports))
broadcast_lem_example = broadcast_lem boxes (5 ∷ []) udp two_boxes
