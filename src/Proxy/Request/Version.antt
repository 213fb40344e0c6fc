-- ===== src/Proxy/Request/Version.antt =====
-- What `parse_request_line` of 3/src/handler.c changes.
use os_5_sem.Base.{
  ℕ, ◌≡◌, ◌⊎◌, inl, inr, refl, true, some, List, ◌++◌, length, Bool-cases, Option-cases, ◌∙◌, ap,
}
use os_5_sem.Proxy.CString.{codes, starts_with, strstr, write_at}
use os_5_sem.Proxy.CString.Laws.{starts_with-append, strstr-append, write_at-replace}
use os_5_sem.Proxy.Request.{
  Parsed, accepted, refused, http_1_0, http_1_1, set_version, check_line, scan_line,
  parse_request_line,
}
use mathlib.Core.List.{append_assoc}

-- The buffer with one version in it replaced by HTTP/1.1, or as it was.
pub data Upgraded (buffer : List ℕ) : Parsed (List ℕ) → Type 0 where
  unchanged : Upgraded buffer (accepted buffer)
  replaced :
      (pre old post : List ℕ)
      → (old ≡ http_1_0) ⊎ (old ≡ http_1_1)
      → buffer ≡ pre ++ (old ++ post)
      → Upgraded buffer (accepted (pre ++ (http_1_1 ++ post)))
  rejected : Upgraded buffer refused

set_version-Upgraded :
    (old version buffer : List ℕ)
    → (old ≡ http_1_0) ⊎ (old ≡ http_1_1)
    → length old ≡ 8
    → starts_with old version ≡ true
    → Upgraded buffer (set_version version buffer)
unfolding set_version
set_version-Upgraded old version buffer which eight h =
    let (tail, ev) = starts_with-append old version h in
    elim (Option-cases (strstr version buffer)) [
      | inl never ↦ rw (never, set_version) unchanged
      | inr found ↦
          let (pre, post, eb, n) = strstr-append version buffer found.0 found.1 in
          let split : buffer ≡ pre ++ (old ++ (tail ++ post)) =
            eb ∙ ap (λ r. pre ++ r) (rw ev (append_assoc old tail post)) in
          let written : write_at found.0 http_1_1 buffer
              ≡ some (pre ++ (http_1_1 ++ (tail ++ post))) =
            rw (← n, split) (write_at-replace pre old http_1_1 (tail ++ post) eight) in
          rw (found.1, set_version) (rw written (replaced pre old (tail ++ post) which split))
    ]

-- For every buffer `parse_request_line` writes nothing past the end of it. It refuses the request, or
-- leaves the buffer as it is, or replaces one HTTP/1.0 or HTTP/1.1 in it by HTTP/1.1 and keeps every
-- other byte.
pub parse_request_line-Upgraded : (buffer : List ℕ) → Upgraded buffer (parse_request_line buffer)
unfolding parse_request_line check_line
parse_request_line-Upgraded buffer = elim (Option-cases (scan_line buffer)) [
  | inl bad ↦ rw (bad, parse_request_line) rejected
  | inr line ↦ rw (line.1, parse_request_line) (checked line.0.0 line.0.1)
]
  where
    checked : (method version : List ℕ) → Upgraded buffer (check_line method version buffer)
    checked method version = elim (Bool-cases (starts_with (codes "GET") method)) [
      | inr other ↦ rw other rejected
      | inl get ↦ rw get (elim (Bool-cases (starts_with http_1_0 version)) [
        | inl old ↦ rw old (set_version-Upgraded http_1_0 version buffer (inl refl) refl old)
        | inr newer ↦ rw newer (elim (Bool-cases (starts_with http_1_1 version)) [
          | inl new ↦ rw new (set_version-Upgraded http_1_1 version buffer (inr refl) refl new)
          | inr other ↦ rw other rejected
        ])
      ])
    ]
