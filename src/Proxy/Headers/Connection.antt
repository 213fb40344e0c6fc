-- ===== src/Proxy/Headers/Connection.antt =====
-- What `parse_headers` of 3/src/handler.c does to the connection header.
use mathlib.Core.Option
use mathlib.Core.List.{append_assoc}
use os_5_sem.Base.{
  ℕ, zero, suc, ◌+◌, ◌-◌, ◌%◌, ◌^◌, ◌≤◌, ◌<◌, ◌≡◌, refl, true, false, none, some, List, [], ◌∷◌,
  ◌++◌, ltb, arith, ap, take, drop, length, length-append, ◌∙◌,
}
use os_5_sem.Proxy.CString.{crlf, strstr, strchr, strlen, spaces, write_at}
use os_5_sem.Proxy.CString.Laws.{
  NoNul, strlen-append, drop-append, drop-append_more, write_here-append, write_here-overrun,
  write_at-append, write_at-replace,
}
use os_5_sem.Proxy.Request.{accepted, overrun}
use os_5_sem.Proxy.Headers.{
  add_connection, insert_line, connection_line, move_string, set_connection, close_value, close,
  from_write,
}

-- What a string moves, its NUL included.
pub take_string :
    (s junk : List ℕ) → NoNul s → take (strlen (s ++ 0 ∷ junk) + 1) (s ++ 0 ∷ junk) ≡ s ++ 0 ∷ []
take_string s junk h = rw (strlen-append s junk h) (take_one s)
  where
    take_one : (t : List ℕ) → take (length t + 1) (t ++ 0 ∷ junk) ≡ t ++ 0 ∷ []
    take_one [] = refl
    take_one (c ∷ t) =
        let e : suc (length t) + 1 ≡ suc (length t + 1) = omega arith in
        rw e (ap (λ r. c ∷ r) (take_one t))

length-take_of_le : (n : ℕ) (s : List ℕ) → n ≤ length s → length (take n s) ≡ n
length-take_of_le zero s h = refl
length-take_of_le (suc n) [] h = absurd (omega arith)
length-take_of_le (suc n) (c ∷ s) h = omega (arith, length-take_of_le n s (omega arith))

-- A write `k` bytes into an array.
pub write_at_split :
    (k : ℕ) (bs buf : List ℕ)
    → k + length bs ≤ length buf
    → write_at k bs buf ≡ some (take k buf ++ (bs ++ drop (k + length bs) buf))
unfolding write_at
write_at_split zero bs buf h =
    let z : 0 + length bs ≡ length bs = omega arith in rw z (write_here-append bs buf (omega arith))
write_at_split (suc k) bs [] h = absurd (omega arith)
write_at_split (suc k) bs (c ∷ buf) h =
    let e : suc k + length bs ≡ suc (k + length bs) = omega arith in
    rw (e, write_at_split k bs buf (omega arith))

write_at_short :
    (k : ℕ) (bs buf : List ℕ)
    → length buf < k + length bs
    → 0 < length bs
    → write_at k bs buf ≡ none
unfolding write_at
write_at_short zero bs buf h p = write_here-overrun bs buf (omega arith)
write_at_short (suc k) bs [] h p = refl
write_at_short (suc k) bs (c ∷ buf) h p = rw (write_at_short k bs buf (omega arith) p)

-- Moving the text behind `pre` up by `k` bytes.
move_up :
    (pre s junk : List ℕ) (k : ℕ)
    → NoNul s
    → move_string (length pre + k) (length pre) (pre ++ (s ++ 0 ∷ junk))
      ≡ Option.map (λ rest. pre ++ rest) (write_at k (s ++ 0 ∷ []) (s ++ 0 ∷ junk))
unfolding move_string
move_up pre s junk k h =
    rw (drop-append pre (s ++ 0 ∷ junk), take_string s junk h)
      (write_at-append pre k (s ++ 0 ∷ []) (s ++ 0 ∷ junk))

-- The buffer with the line put in before the empty line, if the bytes behind the text's NUL make room
-- for it. `s` is the rest of the text from the empty line on.
insert_line-append :
    (pre s junk : List ℕ)
    → NoNul s
    → 20 ≤ length junk
    → (junk' : List ℕ) × (insert_line (length pre) (pre ++ (s ++ 0 ∷ junk))
        ≡ some (pre ++ (connection_line ++ (s ++ 0 ∷ junk'))))
unfolding insert_line Option.bind
insert_line-append pre s junk h room =
    let buf = s ++ 0 ∷ junk in
    let moved = s ++ 0 ∷ [] in
    let len : 20 + length moved ≤ length buf =
      omega (arith, length-append s (0 ∷ junk), length-append s (0 ∷ [])) in
    let rest = drop (20 + length moved) buf in
    let short : length (take 20 buf) ≡ length connection_line =
      length-take_of_le 20 buf (omega (arith, len)) in
    (
      rest,
      rw (move_up pre s junk 20 h, write_at_split 20 moved buf len)
          (write_at-replace pre (take 20 buf) connection_line (moved ++ rest) short
            ∙ rw (append_assoc s (0 ∷ []) rest)),
    )

insert_line-none :
    (pre s junk : List ℕ)
    → NoNul s
    → length junk < 20
    → insert_line (length pre) (pre ++ (s ++ 0 ∷ junk)) ≡ none
unfolding insert_line Option.bind
insert_line-none pre s junk h room = rw (
  move_up pre s junk 20 h,
  write_at_short 20 (s ++ 0 ∷ []) (s ++ 0 ∷ junk)
      (omega (arith, length-append s (0 ∷ junk), length-append s (0 ∷ [])))
      (omega (arith, length-append s (0 ∷ []))),
)

-- On a buffer that holds the text `pre ++ s` with `s` at its empty line, behind whose NUL 20 bytes or
-- more are left, `add_connection` puts the line `Connection: close` in before the empty line and
-- keeps the text on both sides; where fewer are left it writes past the end of the array.
pub add_connection-insert :
    (pre s junk : List ℕ)
    → NoNul s
    → strstr (crlf ++ crlf) (pre ++ (s ++ 0 ∷ junk)) ≡ some (length pre)
    → (20 ≤ length junk
        → (junk' : List ℕ) × (add_connection (pre ++ (s ++ 0 ∷ junk))
            ≡ accepted (pre ++ (connection_line ++ (s ++ 0 ∷ junk')))))
      × (length junk < 20 → add_connection (pre ++ (s ++ 0 ∷ junk)) ≡ overrun)
unfolding add_connection
add_connection-insert pre s junk h e = (
  λ room.
      let (junk', written) = insert_line-append pre s junk h room in
      (junk', rw (e, add_connection) (rw written)),
  λ tight. rw (e, add_connection) (rw (insert_line-none pre s junk h tight)),
)

value_length : (p n : ℕ) → n < 2 ^ 64 → (p + n + 2 ^ 64 - p) % 2 ^ 64 ≡ n
value_length p n small = omega arith

-- The text `rest` behind a value of more than five bytes moves down behind `close`.
close_move :
    (pre : List ℕ) (b : ℕ) (bs rest junk : List ℕ)
    → NoNul rest
    → move_string
        (length pre + 5)
        (length pre + (5 + length (b ∷ bs)))
        (pre ++ (close ++ ((b ∷ bs) ++ (rest ++ 0 ∷ junk))))
      ≡ some
          (pre ++ (close ++ (rest ++ 0 ∷ drop (length rest + 1) ((b ∷ bs) ++ (rest ++ 0 ∷ junk)))))
unfolding move_string write_at
close_move pre b bs rest junk h =
    let x = (b ∷ bs) ++ (rest ++ 0 ∷ junk) in
    let moved = rest ++ 0 ∷ [] in
    let fits : length moved ≤ length x = omega (
      arith,
      length-append bs (rest ++ 0 ∷ junk),
      length-append rest (0 ∷ junk),
      length-append rest (0 ∷ []),
    ) in
    let len : length moved ≡ length rest + 1 = length-append rest (0 ∷ []) in
    let e : 5 + length (b ∷ bs) ≡ length close + length (b ∷ bs) = refl in
    rw
      (
        drop-append_more pre (close ++ x) (5 + length (b ∷ bs)),
        e,
        drop-append_more close x (length (b ∷ bs)),
        drop-append (b ∷ bs) (rest ++ 0 ∷ junk),
        take_string rest junk h,
      )
      (rw (write_at-append pre 5 moved (close ++ x)) (
        rw (write_here-append moved x fits)
          (rw (len, append_assoc rest (0 ∷ []) (drop (length rest + 1) x)))))

-- Five bytes `a` and what is left of the value, `b`.
close_value-long :
    (pre a b rest junk : List ℕ)
    → NoNul rest
    → length a ≡ 5
    → 5 + length b < 2 ^ 64
    → (junk' : List ℕ) × (close_value
          (length pre)
          (length pre + (5 + length b))
          (pre ++ (a ++ (b ++ (rest ++ 0 ∷ junk))))
        ≡ some (pre ++ (close ++ (rest ++ 0 ∷ junk'))))
unfolding close_value Option.bind
close_value-long pre a [] rest junk h five small = (
  junk,
  rw (
    value_length (length pre) (5 + 0) small,
    write_at-replace pre a close (rest ++ 0 ∷ junk) five,
  ),
)
close_value-long pre a (b ∷ bs) rest junk h five small = (
  drop (length rest + 1) ((b ∷ bs) ++ (rest ++ 0 ∷ junk)),
  rw
      (
        value_length (length pre) (5 + length (b ∷ bs)) small,
        write_at-replace pre a close ((b ∷ bs) ++ (rest ++ 0 ∷ junk)) five,
      )
      (rw (longer bs) (close_move pre b bs rest junk h)),
)
  where
    longer : (l : List ℕ) → ltb 5 (5 + suc (length l)) ≡ true
    longer l = ground arith

-- A value of fewer than five bytes, and the bytes `lost` behind it.
close_value-short :
    (pre val lost rest : List ℕ)
    → length val + length lost ≡ 5
    → close_value (length pre) (length pre + length val) (pre ++ (val ++ (lost ++ rest)))
      ≡ some (pre ++ (close ++ rest))
unfolding close_value Option.bind
close_value-short pre val lost rest five =
    let small : length val < 2 ^ 64 = omega (arith, five) in
    let not_longer : ltb 5 (length val) ≡ false = ground (arith, five) in
    let joined : length (val ++ lost) ≡ length close = length-append val lost ∙ five in
    rw (
      value_length (length pre) (length val) small,
      not_longer,
      ← append_assoc val lost rest,
      write_at-replace pre (val ++ lost) close rest joined,
    )

-- In the buffer the header at offset `c` has its value behind `pre`, and the value has `n` bytes up to
-- the first CR LF from `c` on.
pub record ValueAt (c : ℕ) (buf pre : List ℕ) (n : ℕ) : Type 0 where
  pub end : ℕ
  pub colon : ℕ
  pub at_end : strstr crlf (drop c buf) ≡ some end
  pub at_colon : strchr b':' (drop c buf) ≡ some colon
  pub starts : c + (colon + 1 + spaces (drop (c + (colon + 1)) buf)) ≡ length pre
  pub ends : c + end ≡ length pre + n

set_connection-value :
    {c : ℕ} {buf pre : List ℕ} {n : ℕ}
    → ValueAt c buf pre n
    → set_connection c buf ≡ from_write (close_value (length pre) (length pre + n) buf)
unfolding set_connection
set_connection-value v = rw (v.at_end, set_connection) (rw v.at_colon (rw (v.starts, v.ends)))

-- Where the connection header's value has five bytes or more, `a` and `b`, `set_connection` replaces
-- it by `close`, and the text before it and the text `rest` behind it are kept.
pub set_connection-long :
    (c : ℕ) (pre a b rest junk : List ℕ)
    → NoNul rest
    → length a ≡ 5
    → 5 + length b < 2 ^ 64
    → ValueAt c (pre ++ (a ++ (b ++ (rest ++ 0 ∷ junk)))) pre (5 + length b)
    → (junk' : List ℕ) × (set_connection c (pre ++ (a ++ (b ++ (rest ++ 0 ∷ junk))))
        ≡ accepted (pre ++ (close ++ (rest ++ 0 ∷ junk'))))
set_connection-long c pre a b rest junk h five small v =
    let (junk', written) = close_value-long pre a b rest junk h five small in
    (junk', set_connection-value v ∙ rw written)

-- A value of fewer than five bytes, and the bytes `lost` behind it.
pub set_connection-short :
    (c : ℕ) (pre val lost rest : List ℕ)
    → length val + length lost ≡ 5
    → ValueAt c (pre ++ (val ++ (lost ++ rest))) pre (length val)
    → set_connection c (pre ++ (val ++ (lost ++ rest))) ≡ accepted (pre ++ (close ++ rest))
set_connection-short c pre val lost rest five v =
    set_connection-value v ∙ rw (close_value-short pre val lost rest five)
