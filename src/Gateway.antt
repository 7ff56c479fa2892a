-- ===== src/Gateway.antt =====
-- The webhook gateway (src/app/gateway/github.py), the signature check
-- (src/adapters/connectors/github/webhook.py) and the payload parsers (src/core/contracts/parsers.py).
pub mod Signature
pub mod Raw
pub mod Values
pub mod Parsers
pub mod Handler
pub mod Origin
pub mod Authenticity
pub mod Handling

-- What the gateway raises. `overflow_error` is what `int` raises on a float that is not finite (on
-- NaN it is a ValueError).
pub data Fault : Type 0 where
  attribute_error type_error value_error overflow_error key_error : Fault
