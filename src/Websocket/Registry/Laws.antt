-- ===== src/Websocket/Registry/Laws.antt =====
-- What the registry shows after a socket is added or removed.
use jiffy_messaging.Base.{
  ◌≡◌, refl, String, true, Option, none, some, [], ◌∷◌, ◌++◌, arith, not, ◌&&◌, ◌||◌, if◌then◌else◌,
  ◌==◌, eq_iff, Bool-cases, inl, inr,
}
use jiffy_messaging.JsMap
use jiffy_messaging.JsMap.{JsMap}
use jiffy_messaging.JsMap.Laws.{get-set, get-delete}
use jiffy_messaging.Websocket.Registry.{
  Socket, SocketSet, ConnectionRegistry, is_same, has_socket, add_socket, delete_socket, get, add,
  remove, remove_from, is_nil, or_empty,
}

pub get-add :
    (r : ConnectionRegistry) (u v : String) (s : Socket)
    → get (add r u s) v ≡ (if u == v then add_socket s (get r u) else get r v)
unfolding get add
get-add r u v s =
    ground (arith, get-set r.connections u v (add_socket s (or_empty (JsMap.get r.connections u))))

delete_socket_nil :
    (s : Socket) (sockets : SocketSet)
    → is_nil (delete_socket s sockets) ≡ true
    → delete_socket s sockets ≡ []
unfolding delete_socket
delete_socket_nil s sockets h = ground arith

get-remove_from :
    (o : Option SocketSet) (r : ConnectionRegistry) (u v : String) (s : Socket)
    → JsMap.get r.connections u ≡ o
    → get (remove_from o r u s) v ≡ (if u == v then delete_socket s (or_empty o) else get r v)
unfolding get remove_from
get-remove_from none r u v s h = ground (arith, eq_iff u v)
get-remove_from (some sockets) r u v s h = ground (
  arith,
  get-delete r.connections u v,
  get-set r.connections u v (delete_socket s sockets),
  delete_socket_nil s sockets,
)

pub get-remove :
    (r : ConnectionRegistry) (u v : String) (s : Socket)
    → get (remove r u s) v ≡ (if u == v then delete_socket s (get r u) else get r v)
unfolding remove get
get-remove r u v s = get-remove_from (JsMap.get r.connections u) r u v s refl

pub has_socket-snoc :
    (s t : Socket) (sockets : SocketSet)
    → has_socket t (sockets ++ s ∷ []) ≡ (has_socket t sockets || is_same t s)
has_socket-snoc s t [] = ground arith
has_socket-snoc s t (x ∷ xs) = ground (arith, has_socket-snoc s t xs)

has_socket-add_socket :
    (s t : Socket) (sockets : SocketSet)
    → has_socket t (add_socket s sockets) ≡ (is_same t s || has_socket t sockets)
unfolding add_socket
has_socket-add_socket s t sockets = elim (Bool-cases (has_socket s sockets)) [
  | inl old ↦ elim (Bool-cases (is_same t s)) [
    | inl same ↦ let e : t ≡ s = ground arith in rw (e, old) (ground (arith, old))
    | inr other ↦ rw (old, other)
  ]
  | inr new ↦ ground (arith, has_socket-snoc s t sockets)
]

has_socket-delete_socket :
    (s t : Socket) (sockets : SocketSet)
    → has_socket t (delete_socket s sockets) ≡ (not (is_same s t) && has_socket t sockets)
unfolding delete_socket
has_socket-delete_socket s t [] = ground arith
has_socket-delete_socket s t (x ∷ xs) = ground (arith, has_socket-delete_socket s t xs)

-- After `add` exactly the new socket is there besides those that were, and for that user; after
-- `remove` exactly that socket is gone, and for that user.
pub has_socket-add-remove :
    (r : ConnectionRegistry) (u v : String) (s t : Socket)
    → (has_socket t (get (add r u s) v) ≡ ((u == v && is_same t s) || has_socket t (get r v)))
      × (has_socket t (get (remove r u s) v)
          ≡ (not (u == v && is_same s t) && has_socket t (get r v)))
has_socket-add-remove r u v s t = (
  ground (arith, get-add r u v s, has_socket-add_socket s t (get r u), eq_iff u v),
  ground (arith, get-remove r u v s, has_socket-delete_socket s t (get r u), eq_iff u v),
)
