-- ===== src/Url.antt =====
-- The platform's URL parser, which the extension calls as `new URL(text)`: a parameter of the model.
-- `none` stands for the exception on a text that is no URL.
use fire_sync.Prelude.{String, Option}

pub record Url : Type 0 where
  pub href : String
  pub protocol : String
  pub hostname : String
  pub origin : String
  pub pathname : String
  pub search : String
  pub hash : String

abbrev pub UrlParser : Type 0
UrlParser = String → Option Url
