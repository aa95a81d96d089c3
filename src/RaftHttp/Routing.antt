-- ===== src/RaftHttp/Routing.antt =====
-- Where requests go, and which calls between nodes pass.
use agenda_distribuida.Prelude.{true, false, ◌||◌, String, some, ◌≡◌, ◌≢◌, ◌↔◌, arith, eq_iff}
use agenda_distribuida.Text.{has_prefix}
use agenda_distribuida.RaftHttp.{
  Standing, proxied, is_control, is_entry, route, route_wired, pass, validate_cluster_hmac,
}

-- A request is sent to another node exactly when it is no preflight, its path is no control path and
-- is /register, /login or under /api/, and the node is wired, does not lead and knows a leader; it
-- goes to that leader's address then.
pub proxied_exactly :
    (resolve : String → String) (method path : String) (s : Standing) (addr : String)
    → (route resolve method path (some s) ≡ proxied addr) ↔ (
        (method ≢ "OPTIONS")
        × (is_control path ≡ false)
        × ((is_entry path || has_prefix "/api/" path) ≡ true)
        × (s.leads ≡ false)
        × (s.leader_id ≢ "")
        × (addr ≡ resolve s.leader_id))
unfolding route route_wired
proxied_exactly resolve method path s addr = (forth, back)
  where
    forth :
        route resolve method path (some s) ≡ proxied addr
        → (method ≢ "OPTIONS")
          × (is_control path ≡ false)
          × ((is_entry path || has_prefix "/api/" path) ≡ true)
          × (s.leads ≡ false)
          × (s.leader_id ≢ "")
          × (addr ≡ resolve s.leader_id)
    forth h = ground (arith, eq_iff method "OPTIONS", eq_iff s.leader_id "")

    back :
        (method ≢ "OPTIONS")
          × (is_control path ≡ false)
          × ((is_entry path || has_prefix "/api/" path) ≡ true)
          × (s.leads ≡ false)
          × (s.leader_id ≢ "")
          × (addr ≡ resolve s.leader_id)
        → route resolve method path (some s) ≡ proxied addr
    back h = ground (arith, eq_iff method "OPTIONS", eq_iff s.leader_id "")

-- A call between nodes passes exactly when a secret is configured and the signature, which is not
-- blank, is the body's under that secret.
pub hmac_exactly :
    (hmac : String → String → String) (secret sig body : String)
    → (validate_cluster_hmac hmac secret sig body ≡ pass)
      ↔ ((secret ≢ "") × (sig ≢ "") × (sig ≡ hmac body secret))
unfolding validate_cluster_hmac
hmac_exactly hmac secret sig body = (forth, back)
  where
    forth :
        validate_cluster_hmac hmac secret sig body ≡ pass
        → (secret ≢ "") × (sig ≢ "") × (sig ≡ hmac body secret)
    forth h = ground (arith, eq_iff secret "", eq_iff sig "", eq_iff (hmac body secret) sig)

    back :
        (secret ≢ "") × (sig ≢ "") × (sig ≡ hmac body secret)
        → validate_cluster_hmac hmac secret sig body ≡ pass
    back h = ground (arith, eq_iff secret "", eq_iff sig "", eq_iff (hmac body secret) sig)
