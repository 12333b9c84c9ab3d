-- ===== src/Seed/Registration.antt =====
-- That the seed node of BlockChain/SeedNode reaches the nodes that registered.
use frustum.Prelude.{◌≡◌, refl, sym, ap, ◌∙◌, [], ◌∷◌, Bool, true, Bytes}
use frustum.Prelude.Outcome.{ok, >>=-eq-ok, ok-injective}
use frustum.Message.{NodeMsg, registration}
use frustum.Peers.{NodeTable, add_node, find_node}
use frustum.Peers.Lookup.{find_node-add_node}
use frustum.Seed.{
  SeedNode, SeedEnv, unmarshal_client_addr, handle_registration, seed_dispatch, seed_msg_handle,
  send_msg,
}

added_of :
    (env : SeedEnv) (msg : NodeMsg) (n n' : SeedNode)
    → msg.msg_type ≡ registration
    → seed_msg_handle env msg n ≡ ok n'
    → handle_registration env msg n ≡ ok n'
unfolding seed_msg_handle seed_dispatch
added_of env msg n n' t h = sym (ap (λ k. seed_dispatch k env msg n) t) ∙ h

-- After a registration that is handled to the end, the consensus type is that of the message, and a
-- message for the registered node is sent to an address: the one that the node gave, if it was not
-- registered before.
pub send_msg-registration :
    (env : SeedEnv) (msg to_node : NodeMsg) (n n' : SeedNode)
    → msg.msg_type ≡ registration
    → to_node.to ≡ msg.from
    → seed_msg_handle env msg n ≡ ok n'
    → (nt : NodeTable) × (fresh : Bool) × (url : Bytes) × (add_node msg.from
          (unmarshal_client_addr env msg)
          n.peers
        ≡ ok (nt, fresh, url))
      × (send_msg to_node n' ≡ ok ((url, to_node) ∷ []))
      × (fresh ≡ true → url ≡ unmarshal_client_addr env msg)
      × (n'.consensus_type ≡ msg.consensus_type)
unfolding handle_registration send_msg
send_msg-registration env msg to_node n n' t same h =
    let (r, e, rest) =
      >>=-eq-ok (add_node msg.from (unmarshal_client_addr env msg) n.peers) _
        (added_of env msg n n' t h) in
    let there = ok-injective rest in
    let (found, new, _) =
      find_node-add_node msg.from (unmarshal_client_addr env msg) n.peers r.0 r.1 r.2 e in
    let at : find_node to_node.to n'.peers ≡ ok (true, r.2) =
      ap (λ i. find_node i n'.peers) same
      ∙ ap (λ (m : SeedNode). find_node msg.from m.peers) (sym there)
      ∙ found in
    (r.0, r.1, r.2, e, rw at refl, new, sym (ap (λ (m : SeedNode). m.consensus_type) there))
