-- ===== src/Broker/Postgres/Connection.antt =====
-- `DbConfig` of src/broker/broker.hpp, and the connection string of src/broker/pg_broker.cpp. The retry
-- settings of the configuration are arguments of the broker.
use distributed_computing.Prelude.{◌++◌, Bytes, codes}

pub data AuthentificationMethod : Type 0 where
  password ssl : AuthentificationMethod

pub record SslCertificates : Type 0 where
  pub rootcert : Bytes
  pub cert : Bytes
  pub key : Bytes

pub record DbConfig : Type 0 where
  pub host : Bytes
  pub port : Bytes
  pub user : Bytes
  pub password : Bytes
  pub dbname : Bytes
  pub mongo_auth_source : Bytes
  pub auth_method : AuthentificationMethod
  pub ssl : SslCertificates

-- `out << "key=" << value << " "`
unfoldable pub setting : Bytes → Bytes → Bytes
setting key value = key ++ codes "=" ++ value ++ codes " "

unfoldable pub generate_connection_string : DbConfig → Bytes
unfolding setting
generate_connection_string config =
    setting (codes "host") config.host
    ++ setting (codes "port") config.port
    ++ setting (codes "dbname") config.dbname
    ++ (elim config.auth_method [
      | password ↦ setting (codes "user") config.user ++ setting (codes "password") config.password
      | ssl ↦
          setting (codes "sslmode") (codes "verify-full")
          ++ setting (codes "sslrootcert") config.ssl.rootcert
          ++ setting (codes "sslcert") config.ssl.cert
          ++ setting (codes "sslkey") config.ssl.key
    ])
