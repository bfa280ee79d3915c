-- ===== src/Websocket/Registry.antt =====
-- src/websocket/connection-registry.ts. A socket is a number: the identity of the object.
pub mod Laws
use jiffy_messaging.Base.{
  ℕ, String, Bool, Option, none, some, List, [], ◌∷◌, ◌++◌, any, keep_if, not, leb, ◌&&◌,
  if◌then◌else◌, length, ◌+◌,
}
use jiffy_messaging.JsMap
use jiffy_messaging.JsMap.{JsMap}

abbrev pub Socket : Type 0
Socket = ℕ

abbrev pub is_same : Socket → Socket → Bool
is_same a b = leb a b && leb b a

-- A `Set` of sockets: its members in insertion order.
abbrev pub SocketSet : Type 0
SocketSet = List Socket

abbrev pub has_socket : Socket → SocketSet → Bool
has_socket s sockets = any (is_same s) sockets

unfoldable pub add_socket : Socket → SocketSet → SocketSet
add_socket s sockets = if has_socket s sockets then sockets else sockets ++ s ∷ []

unfoldable pub delete_socket : Socket → SocketSet → SocketSet
delete_socket s sockets = keep_if (λ t. not (is_same s t)) sockets

pub record ConnectionRegistry : Type 0 where
  pub connections : JsMap SocketSet

abbrev pub new_registry : ConnectionRegistry
new_registry = record { connections = JsMap.new_map }

abbrev pub or_empty : Option SocketSet → SocketSet
or_empty none = []
or_empty (some sockets) = sockets

unfoldable pub get : ConnectionRegistry → String → SocketSet
get r user_id = or_empty (JsMap.get r.connections user_id)

unfoldable pub add : ConnectionRegistry → String → Socket → ConnectionRegistry
unfolding add_socket
add r user_id socket = record {
  connections =
      JsMap.set r.connections user_id
        (add_socket socket (or_empty (JsMap.get r.connections user_id)));
}

abbrev pub is_nil : SocketSet → Bool
is_nil sockets = leb (length sockets) 0

-- `remove`, from the set that the map has for the user.
unfoldable pub remove_from :
    Option SocketSet → ConnectionRegistry → String → Socket → ConnectionRegistry
unfolding delete_socket
remove_from none r user_id socket = r
remove_from (some sockets) r user_id socket =
    let left = delete_socket socket sockets in
    if is_nil left
    then record { connections = JsMap.delete r.connections user_id }
    else record { connections = JsMap.set r.connections user_id left }

unfoldable pub remove : ConnectionRegistry → String → Socket → ConnectionRegistry
unfolding remove_from
remove r user_id socket = remove_from (JsMap.get r.connections user_id) r user_id socket
