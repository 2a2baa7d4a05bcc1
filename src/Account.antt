-- ===== src/Account.antt =====
-- src/account/account.rs: the data of an account. A number with a point is a parameter.
use Prim.Native.String.{String}
use tewta.Base.{ℕ, Bool, Option, List}
use tewta.Peer.{PeerId}
use tewta.Segmented.{Segments}

pub record UserMention : Type 0 where
  pub username : String
  pub peer_id : PeerId
  pub cached_addr : Option String
  pub providers_addrs : List (PeerId × String)

module _ (Int Float : Type 0) where
  mutual
    pub data PropValue : Type 0 where
      bool : Bool → PropValue
      uint : ℕ → PropValue
      int : Int → PropValue
      float : Float → PropValue
      date : ℕ → PropValue
      string : String → PropValue
      user : UserMention → PropValue
      blob : List ℕ → PropValue
      bool_array : List Bool → PropValue
      uint_array : List ℕ → PropValue
      int_array : List Int → PropValue
      float_array : List Float → PropValue
      date_array : List ℕ → PropValue
      string_array : List String → PropValue
      user_array : List UserMention → PropValue
      blob_array : List (List ℕ) → PropValue
      array : PropValues → PropValue
      map : PropMap → PropValue

    pub data PropValues : Type 0 where
      nil : PropValues
      cons : PropValue → PropValues → PropValues

    -- The entries of a `BTreeMap`, in ascending order of their keys.
    pub data PropMap : Type 0 where
      end : PropMap
      entry : String → PropValue → PropMap → PropMap

  -- The arrays have a fan-out of 32.
  pub record AccountData : Type 0 where
    pub username : String
    pub followers : Segments UserMention
    pub follower_count : ℕ
    pub following : Segments UserMention
    pub following_count : ℕ
    pub backup_peer_id : PeerId
    pub props : PropMap

abbrev pub AccountDataSnapshot : Type 0
AccountDataSnapshot = Unit {0}
