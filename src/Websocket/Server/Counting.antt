-- ===== src/Websocket/Server/Counting.antt =====
-- Counting the sockets of the registry of src/websocket/connection-registry.ts.
use jiffy_messaging.Base.{
  ℕ, ◌+◌, ◌<◌, ◌≡◌, refl, ap, String, true, false, none, List, [], ◌∷◌, ◌++◌, arith, eq_iff,
  Bool-cases, inl, inr, length, All,
}
use jiffy_messaging.JsMap.{lookup, store, without, has_key, HasDistinctKeys}
use jiffy_messaging.Websocket.Registry.{
  Socket, SocketSet, has_socket, is_same, or_empty, delete_socket,
}
use jiffy_messaging.Websocket.Registry.Laws.{has_socket-snoc}

-- How many sockets the entries hold together.
unfoldable pub total : List (String × SocketSet) → ℕ
total [] = 0
total ((u, sockets) ∷ es) = length sockets + total es

pub total-store :
    (u : String) (sockets : SocketSet) (es : List (String × SocketSet))
    → total (store u sockets es) + length (or_empty (lookup u es)) ≡ total es + length sockets
unfolding total store lookup
total-store u sockets [] = omega arith
total-store u sockets ((v, old) ∷ es) = ground (arith, total-store u sockets es)

total-without-none :
    (u : String) (es : List (String × SocketSet))
    → has_key u es ≡ false
    → (total (without u es) ≡ total es) × (lookup u es ≡ none)
unfolding total without lookup
total-without-none u [] h = (refl, refl)
total-without-none u ((v, old) ∷ es) h = ground (arith, total-without-none u es)

pub total-without :
    (u : String) (es : List (String × SocketSet))
    → HasDistinctKeys es
    → total (without u es) + length (or_empty (lookup u es)) ≡ total es
unfolding total without lookup
total-without u [] d = omega arith
total-without u ((v, old) ∷ es) (alone, d) =
    ground (arith, total-without u es d, total-without-none u es, eq_iff v u)

-- No socket is in a set twice.
abbrev pub IsSocketSet : SocketSet → Type 0
IsSocketSet [] = Unit
IsSocketSet (s ∷ sockets) = (has_socket s sockets ≡ false) × IsSocketSet sockets

has_socket-delete_other :
    (s t : Socket) (sockets : SocketSet)
    → has_socket t sockets ≡ false
    → has_socket t (delete_socket s sockets) ≡ false
unfolding delete_socket
has_socket-delete_other s t [] h = refl
has_socket-delete_other s t (x ∷ xs) h = ground (arith, has_socket-delete_other s t xs)

pub delete-IsSocketSet :
    (s : Socket) (sockets : SocketSet) → IsSocketSet sockets → IsSocketSet (delete_socket s sockets)
unfolding delete_socket
delete-IsSocketSet s [] d = tt
delete-IsSocketSet s (x ∷ xs) (alone, d) =
    ground (arith, delete-IsSocketSet s xs d, has_socket-delete_other s x xs)

length-delete_missing :
    (s : Socket) (sockets : SocketSet)
    → has_socket s sockets ≡ false
    → length (delete_socket s sockets) ≡ length sockets
unfolding delete_socket
length-delete_missing s [] h = refl
length-delete_missing s (x ∷ xs) h = ground (arith, length-delete_missing s xs)

pub length-delete_socket :
    (s : Socket) (sockets : SocketSet)
    → IsSocketSet sockets
    → has_socket s sockets ≡ true
    → length (delete_socket s sockets) + 1 ≡ length sockets
unfolding delete_socket
length-delete_socket s [] d h = ground arith
length-delete_socket s (x ∷ xs) (alone, d) h = elim (Bool-cases (is_same s x)) [
  | inl same ↦
      let e : x ≡ s = ground arith in
      ground (arith, length-delete_missing s xs, ap (λ y. has_socket y xs) e)
  | inr other ↦ ground (arith, length-delete_socket s xs d)
]

pub add-IsSocketSet :
    (s : Socket) (sockets : SocketSet)
    → IsSocketSet sockets
    → has_socket s sockets ≡ false
    → IsSocketSet (sockets ++ s ∷ [])
add-IsSocketSet s [] d h = (refl, tt)
add-IsSocketSet s (x ∷ xs) (alone, d) h =
    (ground (arith, has_socket-snoc s x xs), add-IsSocketSet s xs d (ground arith))

-- A set that the registry keeps.
abbrev pub IsKept : String × SocketSet → Type 0
IsKept (u, sockets) = IsSocketSet sockets × (0 < length sockets)

pub store-IsKept :
    (u : String) (sockets : SocketSet) (es : List (String × SocketSet))
    → IsKept (u, sockets)
    → All IsKept es
    → All IsKept (store u sockets es)
unfolding store
store-IsKept u sockets [] k h = (k, tt)
store-IsKept u sockets ((v, old) ∷ es) k (o, h) = ground (arith, store-IsKept u sockets es k h)

pub without-IsKept :
    (u : String) (es : List (String × SocketSet)) → All IsKept es → All IsKept (without u es)
unfolding without
without-IsKept u [] h = tt
without-IsKept u ((v, old) ∷ es) (o, h) = ground (arith, without-IsKept u es h)

pub lookup-IsKept :
    (u : String) (es : List (String × SocketSet))
    → All IsKept es
    → IsSocketSet (or_empty (lookup u es))
unfolding lookup
lookup-IsKept u [] h = tt
lookup-IsKept u ((v, old) ∷ es) (o, h) = ground (arith, lookup-IsKept u es h)
