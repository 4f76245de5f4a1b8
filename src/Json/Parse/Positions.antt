-- ===== src/Json/Parse/Positions.antt =====
-- Where the parts of a printed object or array lie in the buffer.
use rb3201_rbprotocol_librar.Prelude.{
  ℕ, ◌+◌, ◌≡◌, [], ◌∷◌, ◌++◌, Bytes, length, length-append, append_assoc, arith,
}

-- How a printed list of values lies in the buffer.
pub enclosed :
    (c d : ℕ) (pre s post : Bytes)
    → pre ++ ((c ∷ (s ++ (d ∷ []))) ++ post) ≡ (pre ++ (c ∷ [])) ++ (s ++ (d ∷ post))
enclosed c d pre s post = simp append_assoc

abbrev pub key_of : Bytes → Bytes
key_of n = b'"' ∷ (n ++ (b'"' ∷ []))

abbrev pub behind_key : Bytes → Bytes → Bytes
behind_key pre n = pre ++ (b'"' ∷ (n ++ (b'"' ∷ b':' ∷ [])))

pub key_lies :
    (pre n s comma more post : Bytes)
    → pre ++ ((key_of n ++ (b':' ∷ (s ++ (comma ++ more)))) ++ post)
      ≡ (pre ++ (b'"' ∷ [])) ++ (n ++ (b'"' ∷ b':' ∷ (s ++ (comma ++ (more ++ post)))))
key_lies pre n s comma more post = simp append_assoc

pub value_lies :
    (pre n s comma more post : Bytes)
    → pre ++ ((key_of n ++ (b':' ∷ (s ++ (comma ++ more)))) ++ post)
      ≡ behind_key pre n ++ (s ++ (comma ++ (more ++ post)))
value_lies pre n s comma more post = simp append_assoc

pub more_lies :
    (pre n s comma more post : Bytes)
    → pre ++ ((key_of n ++ (b':' ∷ (s ++ (comma ++ more)))) ++ post)
      ≡ (behind_key pre n ++ (s ++ comma)) ++ (more ++ post)
more_lies pre n s comma more post = simp append_assoc

pub item_lies :
    (pre s comma more post : Bytes)
    → pre ++ ((s ++ (comma ++ more)) ++ post) ≡ pre ++ (s ++ (comma ++ (more ++ post)))
item_lies pre s comma more post = simp append_assoc

pub more_items_lie :
    (pre s comma more post : Bytes)
    → pre ++ ((s ++ (comma ++ more)) ++ post) ≡ (pre ++ (s ++ comma)) ++ (more ++ post)
more_items_lie pre s comma more post = simp append_assoc

pub length-behind_key : (pre n : Bytes) → length (behind_key pre n) ≡ length pre + length n + 3
length-behind_key pre n = omega (
  arith,
  length-append pre (b'"' ∷ (n ++ (b'"' ∷ b':' ∷ []))),
  length-append n (b'"' ∷ b':' ∷ []),
)
