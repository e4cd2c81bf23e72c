-- ===== src/Server/Routes.antt =====
-- Which paths the handler leaves to the key of the reload (`isAuthKeyProtectedPath` of
-- app/vmestimator/main.go).
use vmestimator.Base.{
  ◌≡◌, ◌↔◌, ◌≢◌, refl, inl, inr, Bool, true, false, Text, codes, ◌==◌, nat_eq, list_eq,
  if◌then◌else◌, Bool-cases, ==_sound,
}
use vmestimator.Server.{
  write, snapshot, reset_all, reload, not_found, cut_prefix, reload_path, exposed, route_of, route,
  is_auth_key_protected_path,
}

route_of-reload : (path : Text) → (path == reload_path) ≡ true → route_of path ≡ reload
route_of-reload path e = rw (==_sound path reload_path e) refl

-- No test before the last one leads to the reload.
only_last :
    (a b c d : Bool)
    → (if a
        then write
        else if b
        then snapshot
        else if c
        then snapshot
        else if d
        then reset_all
        else not_found)
      ≢ reload
only_last true b c d = λ e. cc
only_last false true c d = λ e. cc
only_last false false true d = λ e. cc
only_last false false false true = λ e. cc
only_last false false false false = λ e. cc

-- Unless the metrics have the path for their page, the paths that are left to the reload's own key
-- are those that the handler leads to the reload.
pub is_auth_key_protected_path-route :
    (expose_at path : Text)
    → exposed expose_at path ≡ false
    → (is_auth_key_protected_path path ≡ true) ↔ (route expose_at path ≡ reload)
unfolding is_auth_key_protected_path route
is_auth_key_protected_path-route expose_at path h =
    let p = cut_prefix (codes "/cardinality") path in
    (λ own. rw h (route_of-reload p own), λ led. back p (rw h at led))
  where
    back : (p : Text) → route_of p ≡ reload → (p == reload_path) ≡ true
    back p led = elim (Bool-cases (p == reload_path)) [
      | inl same ↦ same
      | inr other ↦ absurd (
          only_last (p == codes "/api/v1/write") (p == codes "/clusternative/query")
            (p == codes "/clusternative/snapshot") (p == codes "/reset") (rw other at led))
    ]
