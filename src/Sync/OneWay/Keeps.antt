-- ===== src/Sync/OneWay/Keeps.antt =====
-- Calls of engine/sync/one_way_sync.cpp that leave a part of the node as it is.
use veritas_sync_next.Prelude.{
  ℕ, ◌+◌, ◌%◌, ◌≡◌, refl, subst, sym, ◌∙◌, Bool, true, false, Result, ok, err, Bytes,
}
use veritas_sync_next.Protocol.Types.{Channel, FrameType}
use veritas_sync_next.Protocol.Frames.{encode_frame}
use veritas_sync_next.Sync.OneWay.Node.{
  Node, Action, gets, lift, modify, when, give, send, go_on, ◌>>=◌,
}

-- `view` is the part of the node, and `P` what is known of it.
module _ {B : Type 0} (view : Node → B) (P : B → Type 0) where
  abbrev pub Keeps : {A : Type 0} → Action A → Type 0
  Keeps m = (n : Node) → P (view n) → view (m n).1 ≡ view n

  Keeps-go_on :
      {A C : Type 0} (rest : A → Action C) (out : Result A × Node)
      → P (view out.1)
      → ((a : A) → Keeps (rest a))
      → view (go_on rest out).1 ≡ view out.1
  unfolding go_on
  Keeps-go_on rest (err e, n) p k = refl
  Keeps-go_on rest (ok a, n) p k = k a n p

  pub Keeps-bind :
      {A C : Type 0} (m : Action A) (rest : A → Action C)
      → Keeps m
      → ((a : A) → Keeps (rest a))
      → Keeps (m >>= rest)
  Keeps-bind m rest first k n p = Keeps-go_on rest (m n) (subst P (sym (first n p)) p) k ∙ first n p

  pub Keeps-when : (b : Bool) (m : Action (Unit {0})) → Keeps m → Keeps (when b m)
  Keeps-when true m k = k
  Keeps-when false m k = λ n p. refl

  -- Sending changes the counters and the frames that were given to the transport.
  pub Keeps-send :
      ((n : Node) (id : ℕ) → view (record n { next_request_id = id }) ≡ view n)
      → ((n : Node) (c : Channel) (wire : Bytes) → view (give c wire n).1 ≡ view n)
      → (c : Channel) (type : FrameType) (payload : Bytes) → Keeps (send c type payload)
  unfolding send
  Keeps-send ids gives c type payload =
      Keeps-bind (gets (λ n. n.next_request_id)) _ (λ n p. refl)
        λ id.
          Keeps-bind
            (modify
              (λ n. record n { next_request_id = (n.next_request_id + 1) % 18446744073709551616 }))
            _ (λ n p. ids n ((n.next_request_id + 1) % 18446744073709551616))
            λ _.
              Keeps-bind
                (lift (encode_frame (record { type = type; request_id = id; payload = payload }))) _
                (λ n p. refl) λ wire n p. gives n c wire
