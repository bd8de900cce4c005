-- ===== src/Kvdb.antt =====
-- kvdb: byte strings, the databases that a cache writes to, and the sorted tree of a cache, which
-- is a library's.
pub mod Writes
pub mod Order
pub mod Flushable
pub mod Synced
pub mod Iterator
use lachesis_ex.Prelude.{
  ℕ, ◌+◌, ◌≡◌, ◌⊎◌, Bool, true, false, ◌&&◌, List, [], ◌∷◌, Option, none, some, length, ◌==◌,
  if◌then◌else◌,
}

abbrev pub Bytes : Type 0
Bytes = List ℕ

unfoldable pub bytes_eq : Bytes → Bytes → Bool
bytes_eq [] [] = true
bytes_eq [] (_ ∷ _) = false
bytes_eq (_ ∷ _) [] = false
bytes_eq (a ∷ later) (b ∷ bs) = a == b && bytes_eq later bs

-- A key with its new value, where `none` deletes the key: the nil of the source.
abbrev pub Write : Type 0
Write = Bytes × Option Bytes

-- The first entry of a key.
unfoldable pub find : Bytes → List Write → Option (Option Bytes)
unfolding bytes_eq
find k [] = none
find k ((j, v) ∷ ws) = if bytes_eq j k then some v else find k ws

-- What is read under the key after the writes, in their order.
unfoldable pub after : List Write → Bytes → Option Bytes → Option Bytes
unfolding bytes_eq
after [] k old = old
after ((j, v) ∷ ws) k old = after ws k (if bytes_eq j k then v else old)

-- How a call ends: a value, one of the errors, or a panic.
pub data Reply (A : Type 0) : Type 0 where
  reply : A → Reply A
  closed nil_argument store_error : Reply A
  panics : Reply A

-- No key comes twice.
abbrev pub HasOnce : List Write → Type 0
HasOnce [] = Unit
HasOnce ((k, v) ∷ ws) = (find k ws ≡ none) × HasOnce ws

-- The red-black tree of strings, as its documentation has it: a map with its entries in order.
pub record Tree (T : Type 0) : Type 0 where
  pub empty : T
  pub get : Bytes → T → Option (Option Bytes)
  pub put : Bytes → Option Bytes → T → T
  pub entries : T → List Write
  pub get-empty : (k : Bytes) → get k empty ≡ none
  pub get-put :
      (k j : Bytes) (v : Option Bytes) (t : T)
      → get j (put k v t) ≡ (if bytes_eq k j then some v else get j t)
  pub entries-get : (k : Bytes) (t : T) → find k (entries t) ≡ get k t
  pub entries-HasOnce : (t : T) → HasOnce (entries t)

-- A database: `Has`, `Get` and `Close`, the size of a batch, and `Write` of a batch and `Put`, each
-- with whether it failed.
pub record Store (D : Type 0) : Type 0 where
  pub has : D → Bytes → Reply Bool
  pub get : D → Bytes → Reply (Option Bytes)
  pub write : D → List Write → D × Bool
  pub put : D → Bytes → Bytes → D × Bool
  pub value_size : List Write → ℕ
  pub close : D → D × Reply Unit

-- There is a value.
abbrev pub is_some : Option Bytes → Bool
is_some none = false
is_some (some _) = true

-- It has contents, which it reads, and which a batch without an error changes as written. A batch
-- that fails leaves every key as before or as after it.
pub record IsReliable (D : Type 0) (store : Store D) : Type 0 where
  pub content : D → Bytes → Option Bytes
  pub get-content : (d : D) (k : Bytes) → store.get d k ≡ Reply.reply (content d k)
  pub has-content : (d : D) (k : Bytes) → store.has d k ≡ Reply.reply (is_some (content d k))
  pub write-content :
      (d : D) (ws : List Write)
      → (store.write d ws).1 ≡ false
      → (k : Bytes) → content (store.write d ws).0 k ≡ after ws k (content d k)
  pub write-failed :
      (d : D) (ws : List Write) (k : Bytes)
      → (content (store.write d ws).0 k ≡ content d k)
        ⊎ (content (store.write d ws).0 k ≡ after ws k (content d k))
