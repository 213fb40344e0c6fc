-- ===== src/Mythread/Flags.antt =====
-- The `state` word of `mythread_t` in 1.6/src/mythread.h as four flags, with the bit operations
-- that the code makes on it.
use Prim.Native.Nat.{bit_and, bit_or}
use os_5_sem.Base.{
  ℕ, ◌+◌, ◌*◌, ◌≡◌, refl, Bool, true, false, not, ◌&&◌, arith, ◌==◌, if◌then◌else◌, bit, ==_iff,
  ◌↔◌,
}

pub data Flag : Type 0 where
  detached joined reaped queued : Flag

pub mask : Flag → ℕ
mask detached = 2
mask joined = 4
mask reaped = 8
mask queued = 16

pub record Flags : Type 0 where
  pub is_detached : Bool
  pub is_joined : Bool
  pub is_reaped : Bool
  pub is_queued : Bool

abbrev pub no_flags : Flags
no_flags = record { is_detached = false; is_joined = false; is_reaped = false; is_queued = false }

-- `s & flag`, as a truth value.
abbrev pub has : Flag → Flags → Bool
has detached s = s.is_detached
has joined s = s.is_joined
has reaped s = s.is_reaped
has queued s = s.is_queued

-- `s | flag`.
abbrev pub raise : Flag → Flags → Flags
raise detached s = record s { is_detached = true }
raise joined s = record s { is_joined = true }
raise reaped s = record s { is_reaped = true }
raise queued s = record s { is_queued = true }

abbrev same_bit : Bool → Bool → Bool
same_bit true b = b
same_bit false b = not b

-- The comparison of a compare-and-swap.
abbrev pub same_flags : Flags → Flags → Bool
same_flags s t =
    same_bit s.is_detached t.is_detached
    && same_bit s.is_joined t.is_joined
    && same_bit s.is_reaped t.is_reaped
    && same_bit s.is_queued t.is_queued

-- The word that the flags stand for.
pub word : Flags → ℕ
word s = 2 * bit s.is_detached + 4 * bit s.is_joined + 8 * bit s.is_reaped + 16 * bit s.is_queued

-- Every flag word and every flag, by evaluation.
all_bool : (Bool → Bool) → Bool
all_bool p = p true && p false

all_bool_sound : (p : Bool → Bool) → all_bool p ≡ true → (b : Bool) → p b ≡ true
unfolding all_bool
all_bool_sound p h true = ground arith
all_bool_sound p h false = ground arith

all_words : (Flags → Bool) → Bool
unfolding all_bool
all_words p = all_bool λ d. all_bool λ j.
    all_bool
      λ r. all_bool λ q. p (record { is_detached = d; is_joined = j; is_reaped = r; is_queued = q })

all_words_sound : (p : Flags → Bool) → all_words p ≡ true → (s : Flags) → p s ≡ true
unfolding all_words
all_words_sound p h s =
    all_bool_sound (λ q. p (record s { is_queued = q }))
      (all_bool_sound (λ r. all_bool λ q. p (record s { is_reaped = r; is_queued = q }))
        (all_bool_sound
          (λ j. all_bool λ r. all_bool λ q.
            p (record { is_detached = s.is_detached; is_joined = j; is_reaped = r; is_queued = q }))
          (all_bool_sound
            (λ d. all_bool λ j. all_bool λ r.
              all_bool
                λ q. p (record { is_detached = d; is_joined = j; is_reaped = r; is_queued = q }))
            h s.is_detached)
          s.is_joined)
        s.is_reaped)
      s.is_queued

raise_agrees : Flag → Flags → Bool
raise_agrees f s = word (raise f s) == bit_or (word s) (mask f)

has_agrees : Flag → Flags → Bool
has_agrees f s = bit_and (word s) (mask f) == (if has f s then mask f else 0)

raise_table : (f : Flag) → all_words (raise_agrees f) ≡ true
unfolding all_words raise_agrees word mask
raise_table detached = refl
raise_table joined = refl
raise_table reaped = refl
raise_table queued = refl

has_table : (f : Flag) → all_words (has_agrees f) ≡ true
unfolding all_words has_agrees word mask
has_table detached = refl
has_table joined = refl
has_table reaped = refl
has_table queued = refl

word-raise : (f : Flag) (s : Flags) → word (raise f s) ≡ bit_or (word s) (mask f)
unfolding raise_agrees
word-raise f s = (==_iff _ _).0 (all_words_sound (raise_agrees f) (raise_table f) s)

bit_and-word : (f : Flag) (s : Flags) → bit_and (word s) (mask f) ≡ (if has f s then mask f else 0)
unfolding has_agrees
bit_and-word f s = (==_iff _ _).0 (all_words_sound (has_agrees f) (has_table f) s)

same_flags-word : (s t : Flags) → (same_flags s t ≡ true) ↔ (word s ≡ word t)
unfolding word
same_flags-word s t = ground arith

pub eq_of_same : (s t : Flags) → same_flags s t ≡ true → s ≡ t
eq_of_same s t h = ground arith

-- The flags stand for the `state` word: `|=` with a mask sets the flag of that mask and no other,
-- `&` with a mask is the mask if its flag is set and zero if not, and two words are equal exactly
-- when all four flags are.
pub flags_word :
    (f : Flag) (s t : Flags)
    → (word (raise f s) ≡ bit_or (word s) (mask f))
      × (bit_and (word s) (mask f) ≡ (if has f s then mask f else 0))
      × ((same_flags s t ≡ true) ↔ (word s ≡ word t))
flags_word f s t = (word-raise f s, bit_and-word f s, same_flags-word s t)
