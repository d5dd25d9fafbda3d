-- ===== src/App/Interfaces.antt =====
-- What app_ctrl.cc calls: Boost's property trees and addresses, and the network.
use tv_cast.Prelude.{ℕ, Option, Bytes, Result}

-- boost::property_tree and boost::asio::ip::address. `none` of `read_json` and `from_string` is an
-- exception; `none` of `get_string` and `get_uint32` is a path that has no such value.
pub record Boost : Type 1 where
  pub Tree : Type 0
  pub Address : Type 0
  pub empty_tree : Tree
  pub put : Bytes → Bytes → Tree → Tree
  pub write_xml : Tree → Bytes
  pub read_json : Bytes → Option Tree
  pub get_string : Bytes → Tree → Option Bytes
  pub get_uint32 : Bytes → Tree → Option ℕ
  pub from_string : Bytes → Option Address

-- boost::asio::ip::tcp::endpoint
pub record Endpoint (boost : Boost) : Type 0 where
  pub address : boost.Address
  pub port : ℕ

-- `Write` of the sessions that an answer goes to, over the state `W` of the network.
pub record Sessions (W : Type 0) : Type 0 where
  pub write : ℕ → Bytes → W → Result W

-- The communication controller and the sessions that it makes, over the state `W` of the network.
-- `none` of `create_http_client_session` is a null pointer.
pub record Network (W Address : Type 0) : Type 0 where
  pub create_http_client_session : Address → W → Result (Option ℕ × W)
  pub write : ℕ → Bytes → W → Result W
  pub read : ℕ → W → Result W
