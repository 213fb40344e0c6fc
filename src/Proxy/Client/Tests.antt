-- ===== src/Proxy/Client/Tests.antt =====
-- A printed request through `handle_client`.
use os_5_sem.Base.{
  ℕ, ◌≡◌, refl, true, Option, none, some, List, [], ◌∷◌, ◌++◌, ◌==◌, arith, if◌then◌else◌, inl,
}
use os_5_sem.Proxy.CString.{codes, strchr, same_name}
use os_5_sem.Proxy.Request.{http_1_0}
use os_5_sem.Proxy.Headers.Tests.{host_field, host_field-IsField, keep_field, keep_field-IsField}
use os_5_sem.Proxy.Headers.Replace.{closed}
use os_5_sem.Proxy.Resolve.{resolve_host}
use os_5_sem.Proxy.Client.{Network, socket_remote, drop_both, handle_client}
use os_5_sem.Proxy.Client.Printed.{proxy_request, origin_request}
use os_5_sem.Proxy.Client.Rewritten.{handle_client-origin_request}

abbrev lookup : List ℕ → Option ℕ
lookup [] = none
lookup (c ∷ s) = if c == b'a' then some 127 else none

abbrev network : Network
network = record {
  request = some (proxy_request (codes "a:81") (codes "b") http_1_0 (host_field ∷ keep_field ∷ []));
  junk = [];
  lookup = lookup;
  socket = true;
  connect = λ a. true;
  write_remote = λ i. 2;
  answer = codes "HTTP" ∷ codes "/1.1" ∷ [];
  write_client = λ i. 3;
}

handle_client-origin_request_example :
    (stale : List ℕ) × (handle_client network
      ≡ socket_remote (
          drop_both
            (origin_request (codes "b") (host_field ∷ closed keep_field ∷ []) ++ stale)
            (codes "HTTP/1.1")))
unfolding resolve_host strchr same_name
handle_client-origin_request_example =
    handle_client-origin_request network (codes "a:81") (codes "b") http_1_0 (host_field ∷ [])
      keep_field [] b'a' (codes ":81") (record { ip = 127; port = 81 }) refl (ground arith)
      (omega arith) (inl refl) (omega arith) (host_field-IsField, (keep_field-IsField, tt)) refl
      refl tt (omega arith) (λ i. omega arith, λ i. omega arith) refl refl refl
