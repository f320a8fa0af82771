-- ===== src/Testspec.antt =====
-- pkg/testspec/types.go: a test file's contents. A nil map of response headers is `none`; every other
-- map of the specification is used the same way whether it is nil or empty.
pub mod Loader
pub mod Loading
pub mod Files
mod Samples
use vcltest.Base.{Bool, false, Option, none, some, List, []}
use vcltest.Base.Int.{ℤ, pos}
use vcltest.Base.Map.{Map}
use vcltest.Base.Text.{Text}

pub record RequestSpec : Type 0 where
  pub method : Text
  pub url : Text
  pub headers : Map Text Text
  pub body : Text

pub record RouteSpec : Type 0 where
  pub status : ℤ
  pub headers : Option (Map Text Text)
  pub body : Text
  pub failure_mode : Text
  pub echo_request : Bool

pub record BackendSpec : Type 0 where
  pub status : ℤ
  pub headers : Option (Map Text Text)
  pub body : Text
  pub failure_mode : Text
  pub routes : Map Text RouteSpec
  pub echo_request : Bool

pub record ResponseExpectations : Type 0 where
  pub status : ℤ
  pub headers : Map Text Text
  pub body_contains : Text

-- `per_backend` holds the field `Calls` of each entry.
pub record BackendExpectations : Type 0 where
  pub name : Text
  pub calls : Option ℤ
  pub used : Text
  pub per_backend : Map Text ℤ

pub record CacheExpectations : Type 0 where
  pub hit : Option Bool
  pub age_gt : Option ℤ
  pub age_lt : Option ℤ

pub record ExpectationsSpec : Type 0 where
  pub response : ResponseExpectations
  pub backend : Option BackendExpectations
  pub cache : Option CacheExpectations
  pub cookies : Map Text Text

pub record ScenarioStep : Type 0 where
  pub at : Text
  pub request : RequestSpec
  pub backends : Map Text BackendSpec
  pub expectations : ExpectationsSpec

pub record TestSpec : Type 0 where
  pub name : Text
  pub request : RequestSpec
  pub backends : Map Text BackendSpec
  pub expectations : ExpectationsSpec
  pub scenario : List ScenarioStep

-- `UnmarshalYAML`: the value as a string if it is one, else as an object written over `b`. The two
-- decodings are the YAML library's.
unfoldable pub unmarshal_backend :
    Option Text
    → (BackendExpectations → Option BackendExpectations)
    → BackendExpectations
    → Option BackendExpectations
unmarshal_backend (some simple) as_object b = some (record b { name = simple })
unmarshal_backend none as_object b = as_object b
