-- ===== src/Sink/Stack.antt =====
-- `class SackStack`: the blocks reported lately, newest first. An unused entry is (-1, -1).
use tcpincast.Base.{
  ℕ, zero, suc, ◌+◌, ◌-◌, List, [], ◌∷◌, ◌++◌, leb, if◌then◌else◌, ℤ, minus_one, get_or, take, drop,
  max,
}

pub record Entry : Type 0 where
  pub left : ℤ
  pub right : ℤ

abbrev pub unused : Entry
unused = record { left = minus_one; right = minus_one }

-- `entries` holds the `size_` elements of `SFE_`.
pub record SackStack : Type 0 where
  pub size : ℕ
  pub cnt : ℕ
  pub entries : List Entry

unused_entries : ℕ → List Entry
unused_entries zero = []
unused_entries (suc n) = unused ∷ unused_entries n

unfoldable pub new_stack : ℕ → SackStack
unfolding unused_entries
new_stack sz = record { size = sz; cnt = 0; entries = unused_entries sz }

-- `head_left(n)` and `head_right(n)`.
abbrev pub head : ℕ → SackStack → Entry
head n s = get_or s.entries n unused

-- `reset()`: the live entries are made unused.
unfoldable pub reset : SackStack → SackStack
unfolding unused_entries
reset s = record s { cnt = 0; entries = unused_entries s.cnt ++ drop s.cnt s.entries }

-- `push()`: the live entries move down by one. The caller writes the first.
unfoldable pub push : Entry → SackStack → SackStack
push e s =
    let n = if leb s.size s.cnt then s.size - 1 else s.cnt in
    record s { cnt = n + 1; entries = e ∷ take n s.entries ++ drop (n + 1) s.entries }

-- `pop(n)`: the live entries after `n` move up by one.
unfoldable pub pop : ℕ → SackStack → SackStack
pop n s =
    let last = max n (s.cnt - 1) in
    record s {
      cnt = s.cnt - 1;
      entries =
          take n s.entries
          ++ take (last - n) (drop (n + 1) s.entries)
          ++ unused ∷ drop (last + 1) s.entries;
    }
