-- ===== src/Server/New.antt =====
-- pkg/server/server.go: New.
use clienthub.Prelude.{Result, ok, err}
use clienthub.Proto.Message.{Bytes}
use clienthub.Crypto.{Primitives, fixed_salt, new_cipher_from_password}
use clienthub.Config.{ServerConfig}
use clienthub.Store.{Store, LoadError, ReadOutcome, new_store}
use clienthub.Server.State.{Server, Library, new_server}

-- The server and the key of its cipher.
with_store : Bytes → Result LoadError Store → Result LoadError (Server × Bytes)
with_store key (err e) = err e
with_store key (ok store) = ok (new_server store, key)

-- What os.ReadFile gives for cfg.StorePath is an argument.
unfoldable pub new :
    Primitives → Library → ServerConfig → ReadOutcome → Result LoadError (Server × Bytes)
unfolding with_store
new p lib cfg file =
    with_store (new_cipher_from_password p cfg.secret fixed_salt) (new_store lib.clients file)
