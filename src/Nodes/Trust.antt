-- ===== src/Nodes/Trust.antt =====
-- transfer/node.go: messages whose sender is not verified.
use codemigrate.Prelude.{
  ℕ, String, List, [], ◌∷◌, ◌++◌, Option, some, ◌≡◌, refl, ◌⊎◌, inl, inr, true, false, Bool-cases,
  Option-cases, string_eq, by_if, ◌==◌, ==_iff,
}
use codemigrate.Prelude.Text.{to_lower}
use codemigrate.TaskTypes.{TaskState}
use codemigrate.Nodes.{NodeManager, Outcome, returns, and_then, node_at, verify}
use codemigrate.Nodes.Rows.{NodeEngine}
use codemigrate.Nodes.Messages.{
  Message, Reply, refuse, invalid_license, handle_keep_alive, handle_transfer_notify, handle_msg,
}

-- What comes of a request whose sender is not verified: nothing changes, or the states that it reports are
-- taken although it is answered that the sender has no license.
pub data Untrusted {Db : Type 0} (msg : Message) (nm : NodeManager Db)
    : Outcome (NodeManager Db × Option Reply) → Type 0 where
  unchanged : (reply : Reply) → Untrusted msg nm (returns (nm, some reply))
  reported :
      (states : List TaskState)
      → to_lower msg.cmd ≡ "transfernotify"
      → msg.transfer_notify ≡ some states
      → Untrusted msg nm (
          returns (
            record nm { state_chan = nm.state_chan ++ states ∷ [] },
            some (refuse invalid_license),
          ))

module _ {Db : Type 0} where
  keep_alive-Untrusted :
      (r : ℕ) (msg : Message) (nm : NodeManager Db)
      → verify msg.from msg.token (node_at nm r) ≡ false
      → Untrusted msg nm
          (returns ((handle_keep_alive r msg nm).0, some (handle_keep_alive r msg nm).1))
  unfolding handle_keep_alive
  keep_alive-Untrusted r msg nm bad =
      rw (bad, handle_keep_alive) (unchanged (refuse invalid_license))

  transfer_notify-Untrusted :
      (r : ℕ) (msg : Message) (nm : NodeManager Db)
      → to_lower msg.cmd ≡ "transfernotify"
      → verify msg.from msg.token (node_at nm r) ≡ false
      → Untrusted msg nm
          (returns ((handle_transfer_notify r msg nm).0, some (handle_transfer_notify r msg nm).1))
  unfolding handle_transfer_notify
  transfer_notify-Untrusted r msg nm cmd bad = elim (Option-cases msg.transfer_notify) [
    | inl e ↦ rw (e, bad, handle_transfer_notify) (unchanged _)
    | inr (states, e) ↦ elim (Bool-cases (node_at nm r).has_mgr) [
      | inl h ↦ simp (e, bad, h, handle_transfer_notify) (reported states cmd e)
      | inr h ↦ rw (e, bad, h, handle_transfer_notify) (unchanged _)
    ]
  ]

module _ (x : NodeEngine) where
  open x use {Db}

  handle_msg-Untrusted :
      (now : ℕ) (fresh : String) (r : ℕ) (msg : Message) (nm : NodeManager Db)
      → msg.is_req ≡ true
      → (to_lower msg.cmd == "register") ≡ false
      → (to_lower msg.cmd == "login") ≡ false
      → verify msg.from msg.token (node_at nm r) ≡ false
      → Untrusted msg nm (handle_msg x now fresh r msg nm)
  unfolding handle_msg
  handle_msg-Untrusted now fresh r msg nm req no_register no_login bad =
      let P : Outcome (NodeManager Db × Reply) → Type 0 =
        λ o. Untrusted msg nm (and_then o (λ q. returns (q.0, some q.1))) in
      let cmd : String = to_lower msg.cmd in
      by_if (Untrusted msg nm) msg.is_req
        (λ _.
          by_if P (cmd == "register") (λ e. cc)
            (λ _.
              by_if P (cmd == "login") (λ e. cc)
                (λ _.
                  by_if P (cmd == "keepalive") (λ _. keep_alive-Untrusted r msg nm bad)
                    (λ _.
                      by_if P (cmd == "transfernotify")
                        (λ e.
                          transfer_notify-Untrusted r msg nm ((==_iff cmd "transfernotify").0 e)
                            bad)
                        (λ _. unchanged _)))))
        (λ e. cc)

  -- Of a request that is neither a registration nor a login: its sender is verified, or nothing changes but
  -- that the states that it reports are taken. What a notification changes does not depend on the sender and
  -- the token that it names at all.
  pub sender_of_message :
      (now : ℕ) (fresh : String) (r : ℕ) (msg : Message) (from token : String) (nm : NodeManager Db)
      → msg.is_req ≡ true
      → (to_lower msg.cmd == "register") ≡ false
      → (to_lower msg.cmd == "login") ≡ false
      → ((verify msg.from msg.token (node_at nm r) ≡ true)
          ⊎ Untrusted msg nm (handle_msg x now fresh r msg nm))
        × ((handle_transfer_notify r (record msg { from = from; token = token }) nm).0
            ≡ (handle_transfer_notify r msg nm).0)
  unfolding handle_transfer_notify
  sender_of_message now fresh r msg from token nm req no_register no_login = (
    elim (Bool-cases (verify msg.from msg.token (node_at nm r))) [
      | inl v ↦ inl v
      | inr v ↦ inr (handle_msg-Untrusted now fresh r msg nm req no_register no_login v)
    ],
    elim (Option-cases msg.transfer_notify) [
      | inl e ↦ rw (e, handle_transfer_notify) refl
      | inr (states, e) ↦ rw (e, handle_transfer_notify) refl
    ],
  )
