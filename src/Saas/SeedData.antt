-- ===== src/Saas/SeedData.antt =====
-- The rows that saas/prisma/seed.ts writes. Loads, latencies and uptimes are in hundredths.
use proxy_redirector.Prelude.{ℕ, Bool, true, false, List, [], ◌∷◌}
use proxy_redirector.Text.{Text, codes}
use proxy_redirector.Saas.Domain.{
  UserRole, admin, ProxyPoolType, static_dedicated, ProxyTier, tier_1_private_vps,
  tier_2_static_isp,
}

pub record Plan : Type 0 where
  pub name : Text
  pub price_monthly : ℕ
  pub bandwidth_limit_gb : ℕ
  pub max_devices : ℕ
  pub allowed_regions : List Text
  pub has_ad_block : Bool
  pub has_dedicated_ips : Bool

pub record Account : Type 0 where
  pub email : Text
  pub password_hash : Text
  pub name : Text
  pub role : UserRole
  pub email_verified : Bool

pub record SeedProxy : Type 0 where
  pub ip : Text
  pub port : ℕ
  pub protocol : Text
  pub pool_type : ProxyPoolType
  pub tier : ProxyTier
  pub provider_name : Text
  pub country_code : Text
  pub city : Text
  pub asn : ℕ
  pub isp_name : Text
  pub fraud_score : ℕ
  pub is_alive : Bool
  pub last_latency_ms : ℕ
  pub uptime_percent : ℕ

pub record SeedRelay : Type 0 where
  pub name : Text
  pub region : Text
  pub country : Text
  pub public_ip : Text
  pub grpc_port : ℕ
  pub socks_port : ℕ
  pub http_port : ℕ
  pub status : Text
  pub current_load : ℕ
  pub active_sessions : ℕ
  pub secret_key_hash : Text

abbrev plan : Text → ℕ → ℕ → ℕ → List Text → Bool → Plan
plan name price gb devices regions dedicated = record {
  name = name;
  price_monthly = price;
  bandwidth_limit_gb = gb;
  max_devices = devices;
  allowed_regions = regions;
  has_ad_block = true;
  has_dedicated_ips = dedicated;
}

abbrev pub plans : List Plan
plans =
    plan (codes "Free") 0 1 1 (codes "US" ∷ []) false
    ∷ plan (codes "Basic") 500 50 2 (codes "US" ∷ codes "EU" ∷ codes "ASIA" ∷ []) false
    ∷ plan (codes "Pro") 1200 200 5 (codes "US" ∷ codes "EU" ∷ codes "ASIA" ∷ codes "GLOBAL" ∷ [])
        true
    ∷ plan (codes "Business") 3000 1000 15
        (codes "US" ∷ codes "EU" ∷ codes "ASIA" ∷ codes "GLOBAL" ∷ []) true
    ∷ []

abbrev pub admin_email : Text
admin_email = codes "admin@proxyredirector.io"

-- The `create` of the administrator, with the hash of the password
abbrev pub admin_account : Text → Account
admin_account hash = record {
  email = admin_email;
  password_hash = hash;
  name = codes "System Administrator";
  role = admin;
  email_verified = true;
}

-- The `update` of the administrator
unfoldable pub promote : Account → Account
promote a = record a { role = admin; email_verified = true }

abbrev pub static_proxies : List SeedProxy
static_proxies =
    record {
      ip = codes "198.51.100.10";
      port = 1080;
      protocol = codes "socks5";
      pool_type = static_dedicated;
      tier = tier_2_static_isp;
      provider_name = codes "Self-Hosted Mesh";
      country_code = codes "US";
      city = codes "New York";
      asn = 7018;
      isp_name = codes "AT&T Services";
      fraud_score = 2;
      is_alive = true;
      last_latency_ms = 4250;
      uptime_percent = 9998;
    }
    ∷ record {
      ip = codes "198.51.100.20";
      port = 1080;
      protocol = codes "socks5";
      pool_type = static_dedicated;
      tier = tier_2_static_isp;
      provider_name = codes "Self-Hosted Mesh";
      country_code = codes "DE";
      city = codes "Frankfurt";
      asn = 3320;
      isp_name = codes "Deutsche Telekom AG";
      fraud_score = 0;
      is_alive = true;
      last_latency_ms = 2810;
      uptime_percent = 10000;
    }
    ∷ record {
      ip = codes "198.51.100.30";
      port = 1080;
      protocol = codes "socks5";
      pool_type = static_dedicated;
      tier = tier_1_private_vps;
      provider_name = codes "Private VPS Node";
      country_code = codes "SG";
      city = codes "Singapore";
      asn = 4657;
      isp_name = codes "StarHub Ltd";
      fraud_score = 1;
      is_alive = true;
      last_latency_ms = 5540;
      uptime_percent = 9995;
    }
    ∷ []

abbrev pub relay_servers : List SeedRelay
relay_servers =
    record {
      name = codes "us-east-relay-01";
      region = codes "US-East";
      country = codes "US";
      public_ip = codes "198.51.100.100";
      grpc_port = 50051;
      socks_port = 1080;
      http_port = 8080;
      status = codes "ONLINE";
      current_load = 1240;
      active_sessions = 8;
      secret_key_hash = codes "dummy_hash";
    }
    ∷ record {
      name = codes "eu-central-relay-01";
      region = codes "EU-Central";
      country = codes "DE";
      public_ip = codes "198.51.100.200";
      grpc_port = 50051;
      socks_port = 1080;
      http_port = 8080;
      status = codes "ONLINE";
      current_load = 1820;
      active_sessions = 14;
      secret_key_hash = codes "dummy_hash";
    }
    ∷ []
