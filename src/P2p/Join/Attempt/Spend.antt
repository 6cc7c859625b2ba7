-- ===== src/P2p/Join/Attempt/Spend.antt =====
-- app/src/app_radio_p2p.c: one attempt, and a restart, leave the counter above all that were used.
use sticker_firmware.Base.{
  ℕ, ◌+◌, ◌-◌, ◌^◌, ◌<◌, ◌≤◌, ◌≡◌, refl, arith, Bool, true, false, Option, none, some, List, [],
  ◌∷◌, u32, Ret, ok, fail, Result, done, err,
}
use sticker_firmware.P2p.Node.{Node, Modulation, JoinAccept, dnonce_persist}
use sticker_firmware.P2p.Join.{Identity, join_request_build, join_accept_open}
use sticker_firmware.P2p.Join.Attempt.{
  Sent, nonce_from, send_built, send_saved, send_join_request, joined, recv_join_accept, received,
  keyed_then, keyed_join_attempt, twr_pair_req_build, wait_response, twr_pair_commit, confirmed,
  pair_confirm, pair_answered, pair_built, pair_saved, twr_pair_attempt, Response,
}
use sticker_firmware.P2p.Join.Attempt.Counter.{
  noted, Descends, stored, Spends, SameNonce, pairing_persist-SameNonce, none-Spends,
  reserved-Spends, sent_nothing, sent_one, sent_both,
}

module _ (encrypt_block : List ℕ → List ℕ → List ℕ) (id : Identity) where
  joined-SameNonce :
      (modulation : Modulation) (n : Node (List ℕ)) (nonce : ℕ) (window : Result (List ℕ))
      (saved reserved : Ret)
      → SameNonce n (recv_join_accept encrypt_block id modulation n nonce window saved reserved).1
  unfolding recv_join_accept joined
  joined-SameNonce modulation n nonce (err e) saved reserved = (refl, refl)
  joined-SameNonce modulation n nonce (done frame) saved reserved =
      opened (join_accept_open encrypt_block id nonce frame)
    where
      opened :
          (r : Result (JoinAccept × ℕ))
          → SameNonce n (joined encrypt_block id modulation n nonce r saved reserved).1
      opened (err e) = (refl, refl)
      opened (done (ja, c)) = pairing_persist-SameNonce modulation n ja _ false saved reserved

  pub keyed-Spends :
      (modulation : Modulation) (n : Node (List ℕ)) (held : Bool) (nonce_saved tx : Ret)
      (window : Result (List ℕ)) (saved reserved : Ret)
      → stored n.dnonce ≡ n.dev_nonce
      → n.dev_nonce < 2 ^ 32 - 2
      → Spends n (
          keyed_join_attempt encrypt_block id modulation n held nonce_saved tx window saved
            reserved)
  unfolding keyed_join_attempt keyed_then send_join_request send_saved send_built received
      dnonce_persist
  keyed-Spends modulation n true nonce_saved tx window saved reserved s b =
      none-Spends n n _ s (refl, refl)
  keyed-Spends modulation n false (fail e) tx window saved reserved s b =
      none-Spends n n _ s (refl, refl)
  keyed-Spends modulation n false ok tx window saved reserved s b =
      built (join_request_build encrypt_block id c) tx
    where
      c : ℕ
      c = nonce_from n.dev_nonce

      m : Node (List ℕ)
      m = record n { dev_nonce = u32 (c + 1); dnonce = some (u32 (c + 1)) }

      built :
          (r : Result (List ℕ)) (tx : Ret)
          → Spends n (
              keyed_then encrypt_block id modulation
                (send_built encrypt_block id c m r tx)
                window
                saved
                reserved)
      built (err e) tx =
          reserved-Spends n m _ [] (u32 (c + 1)) refl refl (ground arith)
            (sent_nothing n.dev_nonce c (u32 (c + 1)) (ground arith))
      built (done frame) (fail e) = reserved-Spends n m _ _ (u32 (c + 1)) refl refl (ground arith) (
          sent_one n.dev_nonce (u32 (c + 1)) (record { counter = c; frame = frame }) (ground arith)
            (ground arith))
      built (done frame) ok =
          let same = joined-SameNonce modulation m c window saved reserved in
          reserved-Spends n _ _ _ (u32 (c + 1)) same.0 same.1 (ground arith) (
            sent_one n.dev_nonce (u32 (c + 1)) (record { counter = c; frame = frame })
              (ground arith) (ground arith))

  pub pair-Spends :
      (modulation : Modulation) (n : Node (List ℕ)) (held : Bool) (nonce_saved tx : Ret)
      (window : List (List ℕ)) (conf_tx saved : Ret)
      → stored n.dnonce ≡ n.dev_nonce
      → n.dev_nonce < 2 ^ 32 - 2
      → Spends n
          (twr_pair_attempt encrypt_block id modulation n held nonce_saved tx window conf_tx saved)
  unfolding twr_pair_attempt pair_saved pair_built pair_answered pair_confirm confirmed
      twr_pair_commit dnonce_persist
  pair-Spends modulation n true nonce_saved tx window conf_tx saved s b =
      none-Spends n n _ s (refl, refl)
  pair-Spends modulation n false (fail e) tx window conf_tx saved s b =
      none-Spends n n _ s (refl, refl)
  pair-Spends modulation n false ok tx window conf_tx saved s b =
      built (twr_pair_req_build encrypt_block id c) tx
    where
      c : ℕ
      c = nonce_from n.dev_nonce

      v : ℕ
      v = u32 (c + 2)

      m : Node (List ℕ)
      m = record n { dev_nonce = v; dnonce = some v }

      within : v ≤ c + 2
      within = ground arith

      one :
          (frame : List ℕ) (cs : List ℕ)
          → Descends n.dev_nonce cs
          → Descends v (noted (record { counter = c; frame = frame } ∷ []) cs)
      one frame =
          sent_one n.dev_nonce v (record { counter = c; frame = frame }) (ground arith)
            (ground arith)

      two :
          (frame conf : List ℕ) (cs : List ℕ)
          → Descends n.dev_nonce cs
          → Descends v (
              noted
                (record { counter = c; frame = frame }
                  ∷ record { counter = u32 (c + 1); frame = conf }
                  ∷ [])
                cs)
      two frame conf =
          sent_both n.dev_nonce v (record { counter = c; frame = frame })
            (record { counter = u32 (c + 1); frame = conf }) (ground arith) (ground arith)
            (ground arith)

      sent : (frame : List ℕ) → List Sent
      sent frame = record { counter = c; frame = frame } ∷ []

      confirm :
          (frame : List ℕ) (r : Response) (built : Result (List ℕ)) (tx : Ret)
          → Spends n (
              pair_confirm encrypt_block id modulation m
                (u32 (c + 1))
                (sent frame)
                r
                built
                tx
                saved)
      confirm frame r (err e) tx = reserved-Spends n m _ _ v refl refl within (one frame)
      confirm frame r (done conf) (fail e) =
          reserved-Spends n m _ _ v refl refl within (two frame conf)
      confirm frame r (done conf) ok =
          let same = pairing_persist-SameNonce modulation m _ r.key true saved ok in
          reserved-Spends n _ _ _ v same.0 same.1 within (two frame conf)

      answered :
          (frame : List ℕ) (r : Option Response)
          → Spends n (
              pair_answered encrypt_block id modulation m
                (u32 (c + 1))
                (sent frame)
                r
                conf_tx
                saved)
      answered frame none = reserved-Spends n m _ _ v refl refl within (one frame)
      answered frame (some r) = confirm frame r _ conf_tx

      built :
          (r : Result (List ℕ)) (tx : Ret)
          → Spends n (pair_built encrypt_block id modulation m c r tx window conf_tx saved)
      built (err e) tx =
          reserved-Spends n m _ [] v refl refl within (sent_nothing n.dev_nonce c v (ground arith))
      built (done frame) (fail e) = reserved-Spends n m _ _ v refl refl within (one frame)
      built (done frame) ok = answered frame (wait_response encrypt_block id window)
