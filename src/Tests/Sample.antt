-- ===== src/Tests/Sample.antt =====
-- Two stated networks, 10.0.1.0/24 and 10.0.2.0/24, in the network 10.0.0.0/8, and an empty table.
use flowstatd.Base.{
  ℕ, ◌/◌, ◌%◌, ◌<◌, ◌≡◌, refl, arith, List, [], ◌∷◌, All, All-replicate, replicate,
  length-replicate, done,
}
use flowstatd.Base.Words.{htonl}
use flowstatd.Subnet.{Subnet, make_subnet}
use flowstatd.Subnet.Shape.{IsValid}
use flowstatd.Clock.{Platform, bits32}
use flowstatd.Flow.{FlowState, zero_flow}
use flowstatd.Flow.Shape.{IsBalanced, IsSound}

abbrev pub subnet_a : Subnet
subnet_a = record { net = 0x0001_000a; mask = 0x00ff_ffff; mask_bits = 24; ip_count = 256 }

abbrev pub subnet_b : Subnet
subnet_b = record { net = 0x0002_000a; mask = 0x00ff_ffff; mask_bits = 24; ip_count = 256 }

abbrev pub ten : Subnet
ten = record { net = 0x0a; mask = 0xff; mask_bits = 8; ip_count = 0x100_0000 }

abbrev pub two_nets : List Subnet
two_nets = subnet_a ∷ subnet_b ∷ []

pub subnet_a_built : make_subnet 0x0001_000a 24 ≡ done subnet_a
unfolding make_subnet htonl
subnet_a_built = refl

pub two_nets-IsValid : All IsValid two_nets
unfolding htonl
two_nets-IsValid = (
  record { least = omega arith; most = omega arith; masked = refl; counted = refl },
  (record { least = omega arith; most = omega arith; masked = refl; counted = refl }, tt),
)

pub clock_hour-lt : (t : ℕ) → t / 3600 % 24 < 24
clock_hour-lt t = omega arith

-- A clock that counts hours and days from 0.
abbrev pub clock : Platform
clock = record {
  time_width = bits32;
  localtime = λ t. record { tm_mday = t / 86400; tm_hour = t / 3600 % 24 };
  hour-lt = clock_hour-lt;
}

abbrev pub empty : FlowState
empty = record {
  nets = two_nets;
  my_net = ten;
  localtm = record { tm_mday = 0; tm_hour = 0 };
  ip_table = replicate 512 zero_flow;
}

zero_flow-IsBalanced : IsBalanced zero_flow
zero_flow-IsBalanced = record { hours = refl; uploaded = refl; downloaded = refl; summed = refl }

pub empty-IsSound : IsSound empty
empty-IsSound = record {
  nets_valid = two_nets-IsValid;
  small = omega arith;
  table = record {
    size = length-replicate 512 zero_flow;
    balanced = All-replicate IsBalanced 512 zero_flow zero_flow-IsBalanced;
  };
}
